-- ===== src/Monitoring/Tests.antt =====
-- The monitoring code over a table that is a list of open periods, and the theorems at concrete
-- inputs.
use boar_pack.Base.{
  ℕ, String, ◌+◌, ◌≡◌, ap, refl, true, false, none, some, List, [], ◌∷◌, text_eq, arith, is_some,
  ltb, if◌then◌else◌, ◌==◌, ◌-◌, Bool-cases, inl, inr, member,
}
use text.Mathlib.TextEquality.{eq_iff}
use boar_pack.Dict.{get}
use boar_pack.Monitoring.Notify.{
  Provider, Entry, Journal, Message, no_quotes, active_again, notify_providers,
}
use boar_pack.Monitoring.Outage.{
  Round, rounds, times, PacedFromFirst, rounds-PacedFromFirst, Legal, rounds-Legal,
}
use boar_pack.Monitoring.Opening.{expected_entry, get-notify_providers, update-open_count}
use boar_pack.Monitoring.Periods.{
  OpenPeriod, PeriodTable, openings, closings, update_problematic_periods,
}

abbrev feed : Provider
feed = record { id = "p1"; name = "Feed"; threshold = some 30 }

abbrev quiet : Provider
quiet = record { id = "p2"; name = "Quiet"; threshold = some 10 }

-- Two alerts 300 seconds apart, with a round between that waits.
abbrev outage : List Round
outage = (1000000, none) ∷ (1010000, none) ∷ (1300000, some 900000) ∷ []

outage-times : times (rounds feed outage []) ≡ 1000000 ∷ 1300000 ∷ []
unfolding rounds boar_pack.Monitoring.Notify.notify_provider get boar_pack.Dict.set
outage-times = refl

rounds-PacedFromFirst_example : PacedFromFirst (times (rounds feed outage []))
unfolding get
rounds-PacedFromFirst_example = rounds-PacedFromFirst feed outage [] refl (refl, (refl, (refl, tt)))

rounds-Legal_example : Legal false (rounds feed ((1000000, none) ∷ (1010000, some 1009000) ∷ []) [])
unfolding get
rounds-Legal_example = rounds-Legal feed ((1000000, none) ∷ (1010000, some 1009000) ∷ []) []

journal_of_others :
    get "p2" (notify_providers 1000000 (("p1", 999000) ∷ []) (feed ∷ quiet ∷ []) []).0
    ≡ expected_entry 1000000 (("p1", 999000) ∷ []) "p2" (some quiet) none
unfolding get
journal_of_others =
    get-notify_providers 1000000 (("p1", 999000) ∷ []) (feed ∷ quiet ∷ []) [] "p2"
      (refl, (refl, tt))

-- How many open periods each provider has.
listed_open : List String → (String → ℕ) → List (String × OpenPeriod)
listed_open [] t = []
listed_open (i ∷ is) t =
    let rest = listed_open is t in
    if ltb 0 (t i) then (i, record { id = i; start = 0 }) ∷ rest else rest

listed_open-none :
    (k : String) (is : List String) (t : String → ℕ)
    → ltb 0 (t k) ≡ false
    → get k (listed_open is t) ≡ none
unfolding listed_open get
listed_open-none k [] t h = refl
listed_open-none k (i ∷ is) t h = elim (Bool-cases (i == k)) [
  | inl here ↦ ground (arith, ap t ((eq_iff i k).0 here), listed_open-none k is t)
  | inr other ↦ ground (arith, listed_open-none k is t)
]

listed_open-find :
    (k : String) (is : List String) (t : String → ℕ)
    → member k is ≡ true
    → is_some (get k (listed_open is t)) ≡ ltb 0 (t k)
unfolding listed_open get
listed_open-find k [] t h = cc
listed_open-find k (i ∷ is) t h = elim (Bool-cases (i == k)) [
  | inl here ↦ ground (arith, ap t ((eq_iff i k).0 here), listed_open-none k is t)
  | inr other ↦ ground (arith, listed_open-find k is t)
]

abbrev counted : PeriodTable
counted = record {
  Table = String → ℕ;
  open_count = λ k t. t k;
  find_open = listed_open;
  upsert = λ rows t k. t k + openings k rows - closings k rows;
  find_law = listed_open-find;
  upsert_law = λ k ids rows t g few. refl;
}

update-open_count_example :
    counted.open_count "p2" (
      update_problematic_periods counted 1000000
        (λ i. 1000001)
        (("p1", 999000) ∷ [])
        (feed ∷ quiet ∷ [])
        (λ i. 0))
    ≡ 1
unfolding get
update-open_count_example =
    update-open_count counted 1000000 (λ i. 1000001) (("p1", 999000) ∷ []) (feed ∷ quiet ∷ [])
      (λ i. 0) "p2" quiet (refl, (refl, tt)) refl (omega arith)
