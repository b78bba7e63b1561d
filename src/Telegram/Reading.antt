-- ===== src/Telegram/Reading.antt =====
-- What is read of the settings that were written, and when a message goes out.
use boar_pack.Base.{
  String, ◌≡◌, ◌≢◌, ◌↔◌, refl, ◌∙◌, ap, sym, Bool, true, false, Option, none, some, [], ◌∷◌, ◌++◌,
  text_eq, if◌then◌else◌, ◌==◌, arith, Bool-cases, inl, inr,
}
use text.Mathlib.TextEquality.{eq_iff}
use boar_pack.Dict.{get, has, has-get}
use boar_pack.Telegram.Settings.{
  enabled_key, bot_token_key, chat_id_key, Rows, IsKeyed, or_else, SettingTable, TelegramSettings,
  UpdateDto, apply_row, apply_rows, no_settings, enabled_row, row_if_given, Delivery,
  get_telegram_settings, set_telegram_settings, is_switched_off, send_message,
}

abbrev pub is_yes : Option String → Bool → Bool
is_yes none old = old
is_yes (some v) old = v == "yes"

abbrev pub or_text : Option String → String → String
or_text none old = old
or_text (some v) old = v

-- A row sets the field of its key.
module _ (k v : String) (s : TelegramSettings) where
  enabled-apply_row :
      (apply_row (k, v) s).enabled ≡ (if k == enabled_key then v == "yes" else s.enabled)
  enabled-apply_row = elim (Bool-cases (k == enabled_key)) [
    | inl a ↦ rw a refl
    | inr a ↦ rw a (elim (Bool-cases (k == bot_token_key)) [
      | inl b ↦ rw b refl
      | inr b ↦
          rw b (elim (Bool-cases (k == chat_id_key)) [ inl c ↦ rw c refl | inr c ↦ rw c refl ])
    ])
  ]

  bot_token-apply_row :
      (apply_row (k, v) s).bot_token ≡ (if k == bot_token_key then v else s.bot_token)
  bot_token-apply_row = elim (Bool-cases (k == enabled_key)) [
    | inl a ↦ rw (a, (eq_iff k enabled_key).0 a) refl
    | inr a ↦ rw a (elim (Bool-cases (k == bot_token_key)) [
      | inl b ↦ rw b refl
      | inr b ↦
          rw b (elim (Bool-cases (k == chat_id_key)) [ inl c ↦ rw c refl | inr c ↦ rw c refl ])
    ])
  ]

  chat_id-apply_row : (apply_row (k, v) s).chat_id ≡ (if k == chat_id_key then v else s.chat_id)
  chat_id-apply_row = elim (Bool-cases (k == enabled_key)) [
    | inl a ↦ rw (a, (eq_iff k enabled_key).0 a) refl
    | inr a ↦ rw a (elim (Bool-cases (k == bot_token_key)) [
      | inl b ↦ rw (b, (eq_iff k bot_token_key).0 b) refl
      | inr b ↦
          rw b (elim (Bool-cases (k == chat_id_key)) [ inl c ↦ rw c refl | inr c ↦ rw c refl ])
    ])
  ]

no_later : (j k : String) (rows : Rows) → has k rows ≡ false → (k == j) ≡ true → get j rows ≡ none
no_later j k rows h e =
    ground (arith, h, (eq_iff k j).0 e, has-get j rows, ap (λ x. has x rows) ((eq_iff k j).0 e))

later_yes :
    (b : Bool) (v : String) (o : Option String) (before old : Bool)
    → before ≡ (if b then v == "yes" else old)
    → (b ≡ true → o ≡ none)
    → is_yes o before ≡ is_yes (if b then some v else o) old
later_yes true v o before old e f = ap (λ x. is_yes x before) (f refl) ∙ e
later_yes false v o before old e f = ap (is_yes o) e

later_text :
    (b : Bool) (v : String) (o : Option String) (before old : String)
    → before ≡ (if b then v else old)
    → (b ≡ true → o ≡ none)
    → or_text o before ≡ or_text (if b then some v else o) old
later_text true v o before old e f = ap (λ x. or_text x before) (f refl) ∙ e
later_text false v o before old e f = ap (or_text o) e

-- The settings as the rows under the three keys.
settings-apply_rows :
    (rows : Rows) (s : TelegramSettings)
    → IsKeyed rows
    → ((apply_rows rows s).enabled ≡ is_yes (get enabled_key rows) s.enabled)
      × (((apply_rows rows s).bot_token ≡ or_text (get bot_token_key rows) s.bot_token)
          × ((apply_rows rows s).chat_id ≡ or_text (get chat_id_key rows) s.chat_id))
unfolding get
settings-apply_rows [] s d = (refl, (refl, refl))
settings-apply_rows ((k, v) ∷ rows) s (new, d) =
    let (a, (b, c)) = settings-apply_rows rows (apply_row (k, v) s) d in
    (
      a
          ∙ later_yes (k == enabled_key) v (get enabled_key rows) _ _ (enabled-apply_row k v s)
              (no_later enabled_key k rows new),
      (
        b
            ∙ later_text (k == bot_token_key) v (get bot_token_key rows) _ _
                (bot_token-apply_row k v s) (no_later bot_token_key k rows new),
        c
            ∙ later_text (k == chat_id_key) v (get chat_id_key rows) _ _ (chat_id-apply_row k v s)
                (no_later chat_id_key k rows new),
      ),
    )

abbrev pub or_old_flag : Option Bool → Bool → Bool
or_old_flag none old = old
or_old_flag (some b) old = b

-- A text that is given and not empty.
abbrev pub or_old_text : Option String → String → String
or_old_text none old = old
or_old_text (some v) old = if v == "" then old else v

abbrev given : Option String → Option String
given none = none
given (some v) = if v == "" then none else some v

abbrev row_of : String → Option String → Rows
row_of key none = []
row_of key (some v) = (key, v) ∷ []

row_if_given-given : (key : String) (o : Option String) → row_if_given key o ≡ row_of key (given o)
row_if_given-given key none = refl
row_if_given-given key (some v) = elim (Bool-cases (v == "")) [
  | inl h ↦ rw h refl
  | inr h ↦ rw h refl
]

or_text-given : (o : Option String) (old : String) → or_text (given o) old ≡ or_old_text o old
or_text-given none old = refl
or_text-given (some v) old = elim (Bool-cases (v == "")) [ inl h ↦ rw h refl | inr h ↦ rw h refl ]

abbrev yes_no : Option Bool → Option String
yes_no none = none
yes_no (some b) = some (if b then "yes" else "no")

-- The rows of an update have different keys, and each has its own value.
written_rows :
    (e : Option Bool) (b c : Option String)
    → let rows = enabled_row e ++ row_of bot_token_key b ++ row_of chat_id_key c in
      IsKeyed rows
      × ((get enabled_key rows ≡ yes_no e)
          × ((get bot_token_key rows ≡ b) × (get chat_id_key rows ≡ c)))
unfolding get has
written_rows none none none = (tt, (refl, (refl, refl)))
written_rows none none (some z) = ((refl, tt), (refl, (refl, refl)))
written_rows none (some y) none = ((refl, tt), (refl, (refl, refl)))
written_rows none (some y) (some z) = ((refl, (refl, tt)), (refl, (refl, refl)))
written_rows (some x) none none = ((refl, tt), (refl, (refl, refl)))
written_rows (some x) none (some z) = ((refl, (refl, tt)), (refl, (refl, refl)))
written_rows (some x) (some y) none = ((refl, (refl, tt)), (refl, (refl, refl)))
written_rows (some x) (some y) (some z) = ((refl, (refl, (refl, tt))), (refl, (refl, refl)))

flag_written :
    (e : Option Bool) (x : Option String)
    → is_yes (or_else (yes_no e) x) false ≡ or_old_flag e (is_yes x false)
flag_written none x = refl
flag_written (some true) x = refl
flag_written (some false) x = refl

text_written :
    (o x : Option String) → or_text (or_else (given o) x) "" ≡ or_old_text o (or_text x "")
text_written none x = refl
text_written (some v) x = elim (Bool-cases (v == "")) [ inl h ↦ rw h refl | inr h ↦ rw h refl ]

-- What the table holds under the three keys.
module _ (table : SettingTable) where
  open table use {Table, value, find_in}

  settings-value :
      (t : Table)
      → ((get_telegram_settings table t).enabled ≡ is_yes (value enabled_key t) false)
        × (((get_telegram_settings table t).bot_token ≡ or_text (value bot_token_key t) "")
            × ((get_telegram_settings table t).chat_id ≡ or_text (value chat_id_key t) ""))
  unfolding get_telegram_settings
  settings-value t =
      let keys = enabled_key ∷ bot_token_key ∷ chat_id_key ∷ [] in
      let (a, (b, c)) =
        settings-apply_rows (find_in keys t) no_settings (table.find_keyed keys t) in
      (
        a ∙ ap (λ o. is_yes o false) (table.find_law enabled_key keys t),
        (
          b ∙ ap (λ o. or_text o "") (table.find_law bot_token_key keys t),
          c ∙ ap (λ o. or_text o "") (table.find_law chat_id_key keys t),
        ),
      )

  -- After an update each of the three settings is what was given for it, if something was (an empty
  -- text is nothing), and otherwise what it was.
  pub get-set_telegram_settings :
      (dto : UpdateDto) (t : Table)
      → ((get_telegram_settings table (set_telegram_settings table dto t)).enabled
          ≡ or_old_flag dto.enabled (get_telegram_settings table t).enabled)
        × (((get_telegram_settings table (set_telegram_settings table dto t)).bot_token
              ≡ or_old_text dto.bot_token (get_telegram_settings table t).bot_token)
            × ((get_telegram_settings table (set_telegram_settings table dto t)).chat_id
                ≡ or_old_text dto.chat_id (get_telegram_settings table t).chat_id))
  unfolding set_telegram_settings
  get-set_telegram_settings dto t =
      let rows =
        enabled_row dto.enabled
        ++ row_if_given bot_token_key dto.bot_token
        ++ row_if_given chat_id_key dto.chat_id in
      let (keyed, (e, (b, c))) =
        rw
          (
            ← row_if_given-given bot_token_key dto.bot_token,
            ← row_if_given-given chat_id_key dto.chat_id,
          )
          at (written_rows dto.enabled (given dto.bot_token) (given dto.chat_id)) in
      let (before_e, (before_b, before_c)) = settings-value t in
      let (after_e, (after_b, after_c)) = settings-value (table.upsert rows t) in
      (
        after_e
            ∙ ap (λ o. is_yes o false) (table.upsert_law enabled_key rows t keyed)
            ∙ ap (λ o. is_yes (or_else o (value enabled_key t)) false) e
            ∙ flag_written dto.enabled (value enabled_key t)
            ∙ ap (or_old_flag dto.enabled) (sym before_e),
        (
          after_b
              ∙ ap (λ o. or_text o "") (table.upsert_law bot_token_key rows t keyed)
              ∙ ap (λ o. or_text (or_else o (value bot_token_key t)) "") b
              ∙ text_written dto.bot_token (value bot_token_key t)
              ∙ ap (or_old_text dto.bot_token) (sym before_b),
          after_c
              ∙ ap (λ o. or_text o "") (table.upsert_law chat_id_key rows t keyed)
              ∙ ap (λ o. or_text (or_else o (value chat_id_key t)) "") c
              ∙ text_written dto.chat_id (value chat_id_key t)
              ∙ ap (or_old_text dto.chat_id) (sym before_c),
        ),
      )

  -- A message goes out exactly if Telegram is enabled, the bot's token and the chat are set, and the
  -- message's type, if it has one, is not switched off; it goes out with those.
  pub send_message_iff :
      (message : String) (type : Option String) (t : Table) (d : Delivery)
      → (send_message table message type t ≡ some d) ↔ (
          ((get_telegram_settings table t).enabled ≡ true)
          × ((get_telegram_settings table t).bot_token ≢ "")
          × ((get_telegram_settings table t).chat_id ≢ "")
          × (is_switched_off table type t ≡ false)
          × (d ≡ record {
            bot_token = (get_telegram_settings table t).bot_token;
            chat_id = (get_telegram_settings table t).chat_id;
            message = message;
          }))
  unfolding send_message
  send_message_iff message type t d = ground (
    arith,
    eq_iff (get_telegram_settings table t).bot_token "",
    eq_iff (get_telegram_settings table t).chat_id "",
  )
