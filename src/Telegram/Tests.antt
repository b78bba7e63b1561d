-- ===== src/Telegram/Tests.antt =====
-- Settings in a table that is a function, and the theorems at concrete inputs.
use boar_pack.Base.{
  String, ◌≡◌, ◌≢◌, ◌↔◌, refl, true, false, Option, none, some, List, [], ◌∷◌, text_eq,
  if◌then◌else◌, ◌==◌, member, arith, Bool-cases, inl, inr,
}
use text.Mathlib.TextEquality.{eq_iff}
use boar_pack.Dict.{get, has, has-get}
use boar_pack.Telegram.Settings.{
  Rows, IsKeyed, or_else, SettingTable, UpdateDto, Delivery, get_telegram_settings,
  set_telegram_settings, is_notification_disabled, is_switched_off, send_message,
}
use boar_pack.Telegram.Events.{
  Flags, EventQuery, get_event_settings, set_event_settings, get-set_event_settings,
}
use boar_pack.Telegram.Reading.{
  or_old_flag, or_old_text, get-set_telegram_settings, send_message_iff,
}

abbrev Values : Type 0
Values = String → Option String

abbrev row : String → Option String → Rows → Rows
row k none rows = rows
row k (some v) rows = (k, v) ∷ rows

abbrev rows_in : List String → Values → Rows
rows_in [] t = []
rows_in (k ∷ keys) t = if member k keys then rows_in keys t else row k (t k) (rows_in keys t)

get-row :
    (j k : String) (o : Option String) (rows : Rows)
    → get j (row k o rows) ≡ (if k == j then or_else o (get j rows) else get j rows)
unfolding get
get-row j k none rows = ground arith
get-row j k (some v) rows = refl

or_else-none : (o : Option String) → or_else o none ≡ o
or_else-none none = refl
or_else-none (some v) = refl

get-rows_in :
    (j : String) (keys : List String) (t : Values)
    → get j (rows_in keys t) ≡ (if member j keys then t j else none)
unfolding get
get-rows_in j [] t = refl
get-rows_in j (k ∷ keys) t = elim (Bool-cases (member k keys)) [
  | inl again ↦ rw again (ground (arith, again, get-rows_in j keys t, eq_iff k j))
  | inr new ↦ rw new (
      ground (
        arith,
        new,
        eq_iff k j,
        get-row j k (t k) (rows_in keys t),
        get-rows_in j keys t,
        or_else-none (t k),
      ))
]

row-IsKeyed :
    (k : String) (o : Option String) (rows : Rows)
    → has k rows ≡ false
    → IsKeyed rows
    → IsKeyed (row k o rows)
row-IsKeyed k none rows h d = d
row-IsKeyed k (some v) rows h d = (h, d)

rows_in-IsKeyed : (keys : List String) (t : Values) → IsKeyed (rows_in keys t)
rows_in-IsKeyed [] t = tt
rows_in-IsKeyed (k ∷ keys) t = elim (Bool-cases (member k keys)) [
  | inl again ↦ rw again (rows_in-IsKeyed keys t)
  | inr new ↦ rw new (
      row-IsKeyed k (t k) (rows_in keys t)
        (ground (arith, new, has-get k (rows_in keys t), get-rows_in k keys t))
        (rows_in-IsKeyed keys t))
]

abbrev values : SettingTable
values = record {
  Table = Values;
  value = λ k t. t k;
  find_in = rows_in;
  upsert = λ rows t. (λ k. or_else (get k rows) (t k));
  find_law = get-rows_in;
  find_keyed = rows_in-IsKeyed;
  upsert_law = λ k rows t keyed. refl;
}

-- Telegram is enabled for a chat, and a type of notifications is switched off.
abbrev stored : Values
stored k =
    if k == "telegram.enabled"
    then some "yes"
    else if k == "telegram.bot_token"
    then some "t"
    else if k == "telegram.chat_id"
    then some "c"
    else if k == "notifications.quotes_by_user_status"
    then some "no"
    else none

abbrev new_chat : UpdateDto
new_chat = record { enabled = none; bot_token = some ""; chat_id = some "d" }

settings_of_new_chat :
    ((get_telegram_settings values (set_telegram_settings values new_chat stored)).enabled
      ≡ or_old_flag new_chat.enabled (get_telegram_settings values stored).enabled)
    × (((get_telegram_settings values (set_telegram_settings values new_chat stored)).bot_token
          ≡ or_old_text new_chat.bot_token (get_telegram_settings values stored).bot_token)
        × ((get_telegram_settings values (set_telegram_settings values new_chat stored)).chat_id
            ≡ or_old_text new_chat.chat_id (get_telegram_settings values stored).chat_id))
settings_of_new_chat = get-set_telegram_settings values new_chat stored

abbrev alert : Delivery
alert = record { bot_token = "t"; chat_id = "c"; message = "Hello" }

alert_goes_out :
    (send_message values "Hello" (some "notifications.quotes_by_provider_status") stored
      ≡ some alert)
    ↔ (((get_telegram_settings values stored).enabled ≡ true)
        × ((get_telegram_settings values stored).bot_token ≢ "")
        × ((get_telegram_settings values stored).chat_id ≢ "")
        × (is_switched_off values (some "notifications.quotes_by_provider_status") stored ≡ false)
        × (alert ≡ record {
          bot_token = (get_telegram_settings values stored).bot_token;
          chat_id = (get_telegram_settings values stored).chat_id;
          message = "Hello";
        }))
alert_goes_out =
    send_message_iff values "Hello" (some "notifications.quotes_by_provider_status") stored alert

abbrev notifications : List String
notifications =
    "notifications.quotes_by_provider_status" ∷ "notifications.quotes_by_user_status" ∷ []

abbrev known_notifications : EventQuery values
known_notifications = record {
  is_matched = λ k. member k notifications;
  find_like = rows_in notifications;
  find_law = λ k t. get-rows_in k notifications t;
  find_keyed = rows_in-IsKeyed notifications;
}

abbrev switched_on : Flags
switched_on = ("notifications.quotes_by_user_status", true) ∷ []

get-set_event_settings_example :
    (get "notifications.quotes_by_user_status" (
        get_event_settings values known_notifications
          (set_event_settings values switched_on stored))
      ≡ some true)
    × (is_notification_disabled values "notifications.quotes_by_user_status"
          (set_event_settings values switched_on stored)
        ≡ false)
unfolding get has
get-set_event_settings_example =
    get-set_event_settings values known_notifications "notifications.quotes_by_user_status"
      switched_on stored (refl, tt)
