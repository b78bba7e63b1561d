-- ===== src/Telegram/Settings.antt =====
-- `TelegrafService` of packages/users-backend/src/telegraf/telegraf.service.ts, over the table of
-- settings, which is a parameter with the documented meaning of the queries that are made.
use boar_pack.Base.{
  String, ◌≡◌, Bool, false, not, ◌||◌, Option, none, some, List, [], ◌∷◌, ◌++◌, text_eq,
  if◌then◌else◌, ◌==◌, member,
}
use boar_pack.Dict.{get, has}

abbrev pub enabled_key : String
enabled_key = "telegram.enabled"

abbrev pub bot_token_key : String
bot_token_key = "telegram.bot_token"

abbrev pub chat_id_key : String
chat_id_key = "telegram.chat_id"

abbrev pub Rows : Type 0
Rows = List (String × String)

-- No two rows have the same key.
abbrev pub IsKeyed : Rows → Type 0
IsKeyed [] = Unit
IsKeyed ((k, v) ∷ rows) = (has k rows ≡ false) × IsKeyed rows

abbrev pub or_else : Option String → Option String → Option String
or_else (some v) old = some v
or_else none old = old

-- `value` is what stands in the table for a key, which is primary.
pub record SettingTable : Type 1 where
  pub Table : Type 0
  pub value : String → Table → Option String
  pub find_in : List String → Table → Rows
  pub upsert : Rows → Table → Table
  pub find_law :
      (k : String) (keys : List String) (t : Table)
      → get k (find_in keys t) ≡ (if member k keys then value k t else none)
  pub find_keyed : (keys : List String) (t : Table) → IsKeyed (find_in keys t)
  pub upsert_law :
      (k : String) (rows : Rows) (t : Table)
      → IsKeyed rows
      → value k (upsert rows t) ≡ or_else (get k rows) (value k t)

pub record TelegramSettings : Type 0 where
  pub enabled : Bool
  pub bot_token : String
  pub chat_id : String

-- A field that is not given is `undefined`.
pub record UpdateDto : Type 0 where
  pub enabled : Option Bool
  pub bot_token : Option String
  pub chat_id : Option String

abbrev pub apply_row : String × String → TelegramSettings → TelegramSettings
apply_row e s =
    if e.0 == enabled_key
    then record s { enabled = e.1 == "yes" }
    else if e.0 == bot_token_key
    then record s { bot_token = e.1 }
    else if e.0 == chat_id_key
    then record s { chat_id = e.1 }
    else s

abbrev pub apply_rows : Rows → TelegramSettings → TelegramSettings
apply_rows [] s = s
apply_rows (e ∷ rows) s = apply_rows rows (apply_row e s)

abbrev pub no_settings : TelegramSettings
no_settings = record { enabled = false; bot_token = ""; chat_id = "" }

abbrev pub enabled_row : Option Bool → Rows
enabled_row none = []
enabled_row (some b) = (enabled_key, if b then "yes" else "no") ∷ []

abbrev pub row_if_given : String → Option String → Rows
row_if_given key none = []
row_if_given key (some v) = if v == "" then [] else (key, v) ∷ []

-- A message to a chat by a bot.
pub record Delivery : Type 0 where
  pub bot_token : String
  pub chat_id : String
  pub message : String

module _ (table : SettingTable) where
  open table use {Table, find_in, upsert}

  unfoldable pub get_telegram_settings : Table → TelegramSettings
  get_telegram_settings t =
      apply_rows (find_in (enabled_key ∷ bot_token_key ∷ chat_id_key ∷ []) t) no_settings

  unfoldable pub set_telegram_settings : UpdateDto → Table → Table
  set_telegram_settings dto t =
      upsert
        (enabled_row dto.enabled
          ++ row_if_given bot_token_key dto.bot_token
          ++ row_if_given chat_id_key dto.chat_id)
        t

  abbrev pub first_value : Rows → Option String
  first_value [] = none
  first_value (e ∷ rows) = some e.1

  unfoldable pub is_notification_disabled : String → Table → Bool
  is_notification_disabled type t = elim (first_value (find_in (type ∷ []) t)) [
    | some v ↦ v == "no"
    | none ↦ false
  ]

  abbrev pub is_switched_off : Option String → Table → Bool
  is_switched_off none t = false
  is_switched_off (some type) t = if type == "" then false else is_notification_disabled type t

  -- The delivery that is tried; that it fails is logged.
  unfoldable pub send_message : String → Option String → Table → Option Delivery
  send_message message type t =
      let config = get_telegram_settings t in
      if not config.enabled
      then none
      else if config.bot_token == "" || config.chat_id == ""
      then none
      else if is_switched_off type t
      then none
      else some
          (record { bot_token = config.bot_token; chat_id = config.chat_id; message = message })
