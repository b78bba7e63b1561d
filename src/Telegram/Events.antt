-- ===== src/Telegram/Events.antt =====
-- The settings of events: packages/users-backend/src/settings/settings.service.ts, over the table of
-- settings, and what they switch off in packages/users-backend/src/telegraf/telegraf.service.ts.
use boar_pack.Base.{
  String, ◌≡◌, refl, sym, ap, ◌∙◌, Bool, true, false, not, ◌||◌, Option, none, some, List, [], ◌∷◌,
  text_eq, if◌then◌else◌, ◌==◌, member, arith, Bool-cases, inl, inr,
}
use text.Mathlib.TextEquality.{eq_iff}
use boar_pack.Dict.{get, set, has, get-set, has-get}
use boar_pack.Telegram.Settings.{
  Rows, IsKeyed, or_else, SettingTable, first_value, is_notification_disabled,
}

-- An object with distinct keys.
abbrev pub Flags : Type 0
Flags = List (String × Bool)

abbrev pub AreKeyed : Flags → Type 0
AreKeyed [] = Unit
AreKeyed ((k, b) ∷ dto) = (has k dto ≡ false) × AreKeyed dto

-- The rows whose key is matched by `Like('notifications.%')`.
pub record EventQuery (table : SettingTable) : Type 0 where
  pub is_matched : String → Bool
  pub find_like : table.Table → Rows
  pub find_law :
      (k : String) (t : table.Table)
      → get k (find_like t) ≡ (if is_matched k then table.value k t else none)
  pub find_keyed : (t : table.Table) → IsKeyed (find_like t)

abbrev pub yes_or_no : Bool → String
yes_or_no b = if b then "yes" else "no"

abbrev pub setting_rows : Flags → Rows
setting_rows [] = []
setting_rows ((k, b) ∷ dto) = (k, yes_or_no b) ∷ setting_rows dto

abbrev pub read_flags : Rows → Flags → Flags
read_flags [] acc = acc
read_flags ((k, v) ∷ rows) acc = read_flags rows (set k (v == "yes") acc)

module _ (table : SettingTable) (query : EventQuery table) where
  open table use {Table, find_in, upsert, value}
  open query use {find_like, is_matched}

  unfoldable pub get_event_settings : Table → Flags
  get_event_settings t = read_flags (find_like t) []

module _ (table : SettingTable) where
  open table use {Table, find_in, upsert, value}

  unfoldable pub set_event_settings : Flags → Table → Table
  set_event_settings dto t = upsert (setting_rows dto) t

abbrev pub or_old : Option Bool → Option Bool → Option Bool
or_old (some b) old = some b
or_old none old = old

abbrev pub row_of : Option Bool → Option String
row_of (some b) = some (yes_or_no b)
row_of none = none

abbrev pub flag_of : Option String → Option Bool
flag_of (some v) = some (v == "yes")
flag_of none = none

get-setting_rows : (k : String) (dto : Flags) → get k (setting_rows dto) ≡ row_of (get k dto)
unfolding get
get-setting_rows k [] = refl
get-setting_rows k ((j, b) ∷ dto) = ground (arith, get-setting_rows k dto)

has-setting_rows : (k : String) (dto : Flags) → has k (setting_rows dto) ≡ has k dto
unfolding has
has-setting_rows k [] = refl
has-setting_rows k ((j, b) ∷ dto) = ap (λ x. (j == k) || x) (has-setting_rows k dto)

setting_rows-IsKeyed : (dto : Flags) → AreKeyed dto → IsKeyed (setting_rows dto)
setting_rows-IsKeyed [] d = tt
setting_rows-IsKeyed ((k, b) ∷ dto) (new, d) =
    (has-setting_rows k dto ∙ new, setting_rows-IsKeyed dto d)

get-read_flags :
    (k : String) (rows : Rows) (acc : Flags)
    → IsKeyed rows
    → get k (read_flags rows acc) ≡ or_old (flag_of (get k rows)) (get k acc)
unfolding get
get-read_flags k [] acc d = refl
get-read_flags k ((j, v) ∷ rows) acc (new, d) = ground (
  arith,
  new,
  eq_iff j k,
  get-set j k (v == "yes") acc,
  has-get j rows,
  get-read_flags k rows (set j (v == "yes") acc) d,
)

flag_of-row_of : (o : Option Bool) → flag_of (row_of o) ≡ o
flag_of-row_of none = refl
flag_of-row_of (some true) = refl
flag_of-row_of (some false) = refl

flag_of-or_else :
    (o : Option Bool) (old : Option String)
    → flag_of (or_else (row_of o) old) ≡ or_old o (flag_of old)
flag_of-or_else none old = refl
flag_of-or_else (some b) old = flag_of-row_of (some b)

or_old-none : (o : Option Bool) → or_old o none ≡ o
or_old-none none = refl
or_old-none (some b) = refl

-- The only row under a key is the first.
first_value-get :
    (table : SettingTable) (k : String) (rows : Rows) (o : Option String)
    → ((j : String) → get j rows ≡ (if member j (k ∷ []) then o else none))
    → first_value table rows ≡ o
unfolding get
first_value-get table k [] o h = ground (arith, h k, eq_iff k k)
first_value-get table k ((j, v) ∷ rows) o h = ground (arith, h j, eq_iff k j, eq_iff j j)

abbrev pub is_no : Option String → Bool
is_no (some v) = v == "no"
is_no none = false

abbrev pub switched : Option Bool → Bool → Bool
switched (some b) old = not b
switched none old = old

value_is_no :
    (first o : Option String)
    → first ≡ o
    → elim first [ some v ↦ v == "no" | none ↦ false ] ≡ is_no o
value_is_no none o e = ap is_no e
value_is_no (some v) o e = ap is_no e

is_no-or_else :
    (o : Option Bool) (old : Option String)
    → is_no (or_else (row_of o) old) ≡ switched o (is_no old)
is_no-or_else none old = refl
is_no-or_else (some true) old = refl
is_no-or_else (some false) old = refl

matched_flag :
    (b : Bool) (o : Option String)
    → flag_of (if b then o else none) ≡ (if b then flag_of o else none)
matched_flag true o = refl
matched_flag false o = refl

matched_update :
    (b : Bool) (o : Option Bool) (old : Option String)
    → (if b then or_old o (flag_of old) else none)
      ≡ (if b then or_old o (if b then flag_of old else none) else none)
matched_update true o old = refl
matched_update false o old = refl

module _ (table : SettingTable) where
  open table use {Table, find_in, find_law, value, upsert_law}

  rows_under :
      (k : String) (t : Table) (j : String)
      → get j (find_in (k ∷ []) t) ≡ (if member j (k ∷ []) then value k t else none)
  rows_under k t j = find_law j (k ∷ []) t ∙ elim (Bool-cases (k == j)) [
    | inl same ↦ rw (same, (eq_iff k j).0 same) refl
    | inr other ↦ rw other refl
  ]

  is_notification_disabled-value :
      (k : String) (t : Table) → is_notification_disabled table k t ≡ is_no (value k t)
  unfolding is_notification_disabled
  is_notification_disabled-value k t =
      value_is_no _ _ (first_value-get table k (find_in (k ∷ []) t) (value k t) (rows_under k t))

  value-set_event_settings :
      (k : String) (dto : Flags) (t : Table)
      → AreKeyed dto
      → value k (set_event_settings table dto t) ≡ or_else (row_of (get k dto)) (value k t)
  unfolding set_event_settings
  value-set_event_settings k dto t d =
      upsert_law k (setting_rows dto) t (setting_rows-IsKeyed dto d)
      ∙ ap (λ o. or_else o (value k t)) (get-setting_rows k dto)

  module _ (query : EventQuery table) where
    open query use {is_matched, find_like, find_keyed}

    get-get_event_settings :
        (k : String) (t : Table)
        → get k (get_event_settings table query t)
          ≡ (if is_matched k then flag_of (value k t) else none)
    unfolding get_event_settings get
    get-get_event_settings k t =
        get-read_flags k (find_like t) [] (find_keyed t)
        ∙ or_old-none (flag_of (get k (find_like t)))
        ∙ ap flag_of (query.find_law k t)
        ∙ matched_flag (is_matched k) (value k t)

    -- After an update with distinct keys, a key of a notification is read with the flag that was
    -- given for it, if one was, and else as before; no other key is read. What Telegram takes for
    -- switched off, of any key, is what was given as no, and else what it was.
    pub get-set_event_settings :
        (k : String) (dto : Flags) (t : Table)
        → AreKeyed dto
        → (get k (get_event_settings table query (set_event_settings table dto t)) ≡ (
            if is_matched k
            then or_old (get k dto) (get k (get_event_settings table query t))
            else none))
          × (is_notification_disabled table k (set_event_settings table dto t)
              ≡ switched (get k dto) (is_notification_disabled table k t))
    get-set_event_settings k dto t d = (
      get-get_event_settings k (set_event_settings table dto t)
          ∙ ap (λ o. if is_matched k then flag_of o else none) (value-set_event_settings k dto t d)
          ∙ ap (λ o. if is_matched k then o else none) (flag_of-or_else (get k dto) (value k t))
          ∙ matched_update (is_matched k) (get k dto) (value k t)
          ∙ ap (λ o. if is_matched k then or_old (get k dto) o else none)
              (sym (get-get_event_settings k t)),
      is_notification_disabled-value k (set_event_settings table dto t)
          ∙ ap is_no (value-set_event_settings k dto t d)
          ∙ is_no-or_else (get k dto) (value k t)
          ∙ ap (switched (get k dto)) (sym (is_notification_disabled-value k t)),
    )
