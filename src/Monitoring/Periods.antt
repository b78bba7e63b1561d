-- ===== src/Monitoring/Periods.antt =====
-- `getOpenProblematicPeriods`, `updateProblematicPeriods` and `checkProviderActivity`. The table of
-- problematic periods is a parameter, with the documented meaning of the queries that are made.
use boar_pack.Base.{
  ℕ, String, ◌+◌, ◌-◌, ◌*◌, ◌≤◌, ◌≡◌, Bool, true, false, ◌&&◌, Option, none, some, List, [], ◌∷◌,
  ◌++◌, ◌==◌, if◌then◌else◌, ltb, is_some, keep, map, member, truthy_number, text_eq,
}
use boar_pack.Dict.{get}
use boar_pack.Monitoring.Notify.{Provider, Journal, Message, send_notifications}

-- A row of `getOpenProblematicPeriods`, by provider.
pub record OpenPeriod : Type 0 where
  pub id : String
  pub start : ℕ

-- A row that is saved: a new period, open to the right, or an open one with its end.
pub data PeriodRow : Type 0 where
  opened : (provider_id : String) → (start : ℕ) → PeriodRow
  closed : (id provider_id : String) → (start end : ℕ) → PeriodRow

-- `diff === null || (provider.threshold && diff > provider.threshold)`, with `diff` not rounded.
abbrev pub is_late : ℕ → Option ℕ → Provider → Bool
is_late now none p = true
is_late now (some latest) p = elim p.threshold [
  | none ↦ false
  | some th ↦ truthy_number (some th) && ltb (1000 * th) (now - latest)
]

-- The body of the loop over the providers; `started` is the time of its `new Date()`.
abbrev pub period_change : ℕ → ℕ → Option ℕ → Option OpenPeriod → Provider → List PeriodRow
period_change now started latest none p =
    if is_late now latest p then opened p.id started ∷ [] else []
period_change now started latest (some o) p =
    if is_late now latest p then [] else closed o.id p.id o.start now ∷ []

unfoldable pub period_rows :
    ℕ
    → (String → ℕ)
    → List (String × ℕ)
    → List (String × OpenPeriod)
    → List Provider
    → List PeriodRow
period_rows now clock latest open_periods [] = []
period_rows now clock latest open_periods (p ∷ ps) =
    period_change now (clock p.id) (get p.id latest) (get p.id open_periods) p
    ++ period_rows now clock latest open_periods ps

abbrev opens : String → PeriodRow → Bool
opens k (opened provider_id start) = provider_id == k
opens k _ = false

abbrev closes : String → PeriodRow → Bool
closes k (closed id provider_id start end) = provider_id == k
closes k _ = false

abbrev pub openings : String → List PeriodRow → ℕ
openings k [] = 0
openings k (r ∷ rows) = (if opens k r then 1 else 0) + openings k rows

abbrev pub closings : String → List PeriodRow → ℕ
closings k [] = 0
closings k (r ∷ rows) = (if closes k r then 1 else 0) + closings k rows

-- The row closes the open period that the provider is known to have.
abbrev pub IsGenuine : List (String × OpenPeriod) → PeriodRow → Type 0
IsGenuine open_periods (opened provider_id start) = Unit
IsGenuine open_periods (closed id provider_id start end) =
    get provider_id open_periods ≡ some (record { id = id; start = start })

abbrev pub AllGenuine : List (String × OpenPeriod) → List PeriodRow → Type 0
AllGenuine open_periods [] = Unit
AllGenuine open_periods (r ∷ rows) = IsGenuine open_periods r × AllGenuine open_periods rows

-- `open_count` is the number of the provider's periods without an end. `find_open` is asked for some
-- providers, and finds a period of each that has one. An upsert adds the new rows, and ends the
-- periods whose rows it is given.
pub record PeriodTable : Type 1 where
  pub Table : Type 0
  pub open_count : String → Table → ℕ
  pub find_open : List String → Table → List (String × OpenPeriod)
  pub upsert : List PeriodRow → Table → Table
  pub find_law :
      (k : String) (ids : List String) (t : Table)
      → member k ids ≡ true
      → is_some (get k (find_open ids t)) ≡ ltb 0 (open_count k t)
  pub upsert_law :
      (k : String) (ids : List String) (rows : List PeriodRow) (t : Table)
      → AllGenuine (find_open ids t) rows
      → closings k rows ≤ 1
      → open_count k (upsert rows t) ≡ open_count k t + openings k rows - closings k rows

abbrev pub ids : List Provider → List String
ids = map (λ p. p.id)

module _ (table : PeriodTable) where
  open table use {Table, find_open, upsert}

  -- Nothing is saved where there is nothing to save.
  abbrev pub save : List PeriodRow → Table → Table
  save [] t = t
  save (r ∷ rows) t = upsert (r ∷ rows) t

  unfoldable pub update_problematic_periods :
      ℕ → (String → ℕ) → List (String × ℕ) → List Provider → Table → Table
  update_problematic_periods now clock latest ps t =
      save (period_rows now clock latest (find_open (ids ps) t) ps) t

  check_watched :
      List Provider
      → Bool
      → ℕ
      → (String → ℕ)
      → List (String × ℕ)
      → Table
      → Journal
      → Table × Journal × List Message
  check_watched [] enabled now clock latest t j = (t, j, [])
  check_watched (p ∷ ps) enabled now clock latest t j =
      let (j', sent) = send_notifications enabled now latest (p ∷ ps) j in
      (update_problematic_periods now clock latest (p ∷ ps) t, j', sent)

  -- Providers without a threshold are skipped. The two updates touch different state. `latest` is
  -- the answer of `getLatestQuotesByProvider`, `enabled` that of the notifications' setting.
  unfoldable pub check_provider_activity :
      List Provider
      → Bool
      → ℕ
      → (String → ℕ)
      → List (String × ℕ)
      → Table
      → Journal
      → Table × Journal × List Message
  unfolding check_watched
  check_provider_activity fetched enabled now clock latest t j =
      check_watched (keep (λ p. truthy_number p.threshold) fetched) enabled now clock latest t j
