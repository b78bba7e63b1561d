-- ===== src/Monitoring/Opening.antt =====
-- What a check leaves behind: which providers have an open period, and which entries the journal has.
use boar_pack.Base.{
  ℕ, String, ◌+◌, ◌-◌, ◌≤◌, ◌≡◌, refl, ap, ◌∙◌, Bool, true, false, Option, none, some, List, [],
  ◌∷◌, ◌++◌, ◌==◌, if◌then◌else◌, ltb, is_some, find, member, text_eq, arith, Bool-cases,
  Option-cases, inl, inr,
}
use text.Mathlib.TextEquality.{eq_iff}
use text.Mathlib.TextPositions.{eq_refl}
use boar_pack.Dict.{get}
use boar_pack.Monitoring.Notify.{Provider, Entry, Journal, notify_provider, notify_providers}
use boar_pack.Monitoring.Backoff.{next_entry, problematic, get-notify_provider}
use boar_pack.Monitoring.Periods.{
  OpenPeriod, PeriodRow, is_late, period_change, period_rows, openings, closings, AllGenuine,
  PeriodTable, ids, save, update_problematic_periods,
}

abbrev pub provider_of : String → List Provider → Option Provider
provider_of k = find (λ p. p.id == k)

-- No two providers of the list have one identifier.
abbrev pub IsDistinct : List Provider → Type 0
IsDistinct [] = Unit
IsDistinct (p ∷ ps) = (provider_of p.id ps ≡ none) × IsDistinct ps

abbrev pub expected_entry :
    ℕ → List (String × ℕ) → String → Option Provider → Option Entry → Option Entry
expected_entry now latest k none e = e
expected_entry now latest k (some p) e = next_entry now (problematic now (get p.id latest) p) e

-- A check moves the entry of each provider of the list as its own round does, and no other entry, if
-- the identifiers are distinct.
pub get-notify_providers :
    (now : ℕ) (latest : List (String × ℕ)) (ps : List Provider) (j : Journal) (k : String)
    → IsDistinct ps
    → get k (notify_providers now latest ps j).0
      ≡ expected_entry now latest k (provider_of k ps) (get k j)
unfolding notify_providers
get-notify_providers now latest [] j k d = refl
get-notify_providers now latest (p ∷ ps) j k (new, d) = elim (Bool-cases (p.id == k)) [
  | inl here ↦ ground (
    arith,
    new,
    here,
    ap (λ i. provider_of i ps) ((eq_iff p.id k).0 here),
    ap (λ i. get i j) ((eq_iff p.id k).0 here),
    get-notify_provider now (get p.id latest) p j k,
    get-notify_providers now latest ps (notify_provider now (get p.id latest) p j).0 k d,
  )
  | inr other ↦ ground (
    arith,
    other,
    get-notify_provider now (get p.id latest) p j k,
    get-notify_providers now latest ps (notify_provider now (get p.id latest) p j).0 k d,
  )
]

-- A provider that an alert is due for is late by the unrounded age too.
pub is_late_of_problematic :
    (now : ℕ) (latest : Option ℕ) (p : Provider)
    → problematic now latest p ≡ true
    → is_late now latest p ≡ true
is_late_of_problematic now none p h = refl
is_late_of_problematic now (some t) p h = elim (Option-cases p.threshold) [
  | inl e ↦ ground arith
  | inr (th, e) ↦ ground arith
]

openings-append :
    (k : String) (xs bs : List PeriodRow)
    → (openings k (xs ++ bs) ≡ openings k xs + openings k bs)
      × (closings k (xs ++ bs) ≡ closings k xs + closings k bs)
openings-append k [] bs = (omega arith, omega arith)
openings-append k (x ∷ xs) bs =
    (omega (arith, (openings-append k xs bs).0), omega (arith, (openings-append k xs bs).1))

module _ (now : ℕ) (clock : String → ℕ) (latest : List (String × ℕ))
    (os : List (String × OpenPeriod)) where
  abbrev change : Provider → List PeriodRow
  change p = period_change now (clock p.id) (get p.id latest) (get p.id os) p

  abbrev rows : List Provider → List PeriodRow
  rows = period_rows now clock latest os

  openings-rows_none :
      (k : String) (ps : List Provider)
      → provider_of k ps ≡ none
      → (openings k (rows ps) ≡ 0) × (closings k (rows ps) ≡ 0)
  unfolding period_rows
  openings-rows_none k [] h = (refl, refl)
  openings-rows_none k (p ∷ ps) h = ground (arith, openings-rows_none k ps)

  change_foreign :
      (k : String) (q : Provider)
      → (q.id == k) ≡ false
      → (openings k (change q) ≡ 0) × (closings k (change q) ≡ 0)
  change_foreign k q h = ground arith

  openings-rows :
      (k : String) (ps : List Provider) (p : Provider)
      → IsDistinct ps
      → provider_of k ps ≡ some p
      → (openings k (rows ps) ≡ openings p.id (change p))
        × (closings k (rows ps) ≡ closings p.id (change p))
        × (p.id ≡ k)
  unfolding period_rows
  openings-rows k [] p d h = cc
  openings-rows k (q ∷ ps) p (new, d) h = elim (Bool-cases (q.id == k)) [
    | inl here ↦
        let same = (eq_iff q.id k).0 here in
        ground (
          arith,
          openings-append k (change q) (rows ps),
          openings-rows_none k ps,
          ap (λ i. provider_of i ps) same,
        )
    | inr other ↦ ground (
      arith,
      openings-append k (change q) (rows ps),
      change_foreign k q other,
      openings-rows k ps p d,
    )
  ]

  rows-AllGenuine : (ps : List Provider) → AllGenuine os (rows ps)
  unfolding period_rows
  rows-AllGenuine [] = tt
  rows-AllGenuine (p ∷ ps) = ground (arith, rows-AllGenuine ps)

  change_own :
      (p : Provider)
      → (openings p.id (change p) ≡ (
          if is_late now (get p.id latest) p then (if is_some (get p.id os) then 0 else 1) else 0))
        × (closings p.id (change p) ≡ (
            if is_late now (get p.id latest) p
            then 0
            else (if is_some (get p.id os) then 1 else 0)))
  change_own p = elim (Option-cases (get p.id os)) [
    | inl e ↦ rw (e, period_change) (ground (arith, eq_refl p.id))
    | inr (o, e) ↦ rw (e, period_change) (ground (arith, eq_refl p.id))
  ]

settled :
    (late was : Bool) (before opening closing after : ℕ)
    → before ≤ 1
    → was ≡ ltb 0 before
    → opening ≡ (if late then (if was then 0 else 1) else 0)
    → closing ≡ (if late then 0 else (if was then 1 else 0))
    → (closing ≤ 1 → after ≡ before + opening - closing)
    → after ≡ (if late then 1 else 0)
settled late was before opening closing after few w o c a = ground arith

member-ids :
    (k : String) (ps : List Provider) (p : Provider)
    → provider_of k ps ≡ some p
    → member k (ids ps) ≡ true
member-ids k [] p h = cc
member-ids k (q ∷ ps) p h = ground (arith, member-ids k ps p)

module _ (table : PeriodTable) where
  open table use {Table, open_count, find_open, upsert}

  open_count-save :
      (k : String) (watched : List String) (rows : List PeriodRow) (t : Table)
      → AllGenuine (find_open watched t) rows
      → closings k rows ≤ 1
      → open_count k (save table rows t) ≡ open_count k t + openings k rows - closings k rows
  open_count-save k watched [] t g few = omega arith
  open_count-save k watched (r ∷ rows) t g few = table.upsert_law k watched (r ∷ rows) t g few

  -- After a check each provider of the list has exactly one open period if it is late, and none
  -- otherwise, if it had one at most before and the identifiers are distinct.
  pub update-open_count :
      (now : ℕ) (clock : String → ℕ) (latest : List (String × ℕ)) (ps : List Provider) (t : Table)
      (k : String) (p : Provider)
      → IsDistinct ps
      → provider_of k ps ≡ some p
      → open_count k t ≤ 1
      → open_count k (update_problematic_periods table now clock latest ps t)
        ≡ (if is_late now (get p.id latest) p then 1 else 0)
  unfolding update_problematic_periods
  update-open_count now clock latest ps t k p d found one =
      let os = find_open (ids ps) t in
      let (as_opened, as_closed, same) = openings-rows now clock latest os k ps p d found in
      let (own_opened, own_closed) = change_own now clock latest os p in
      let known = table.find_law k (ids ps) t (member-ids k ps p found) in
      let saved =
        open_count-save k (ids ps) (period_rows now clock latest os ps) t
          (rows-AllGenuine now clock latest os ps) in
      settled (is_late now (get p.id latest) p) (is_some (get p.id os)) (open_count k t) _ _ _ one
        (ap (λ i. is_some (get i os)) same ∙ known) (as_opened ∙ own_opened)
        (as_closed ∙ own_closed) saved
