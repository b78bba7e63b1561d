-- ===== src/Statistics/QuotesTotals.antt =====
-- The counters of a provider against the rows that are stored and the quotes that were counted.
use boar_pack.Base.{
  ℕ, String, ◌+◌, ◌≡◌, refl, List, [], ◌∷◌, ◌++◌, map, ◌==◌, text_eq, if◌then◌else◌, arith,
  Bool-cases, inl, inr,
}
use text.Mathlib.TextEquality.{eq_iff}
use boar_pack.Dict.{get, set}
use boar_pack.Statistics.Quotes.{
  Counters, QuotesRow, increment_quotes_number, save_accumulated_quotes_number, Event, quotes, tick,
  step, run,
}

-- The provider's numbers in the rows, in the history, and in the counters.
abbrev pub stored : String → List QuotesRow → ℕ
stored k [] = 0
stored k (r ∷ rows) = (if r.quotes_provider_name == k then r.quotes_number else 0) + stored k rows

abbrev pub counted : String → List Event → ℕ
counted k [] = 0
counted k (quotes provider n ∷ es) = (if provider == k then n else 0) + counted k es
counted k (tick ∷ es) = counted k es

abbrev pub pending : String → Counters → ℕ
pending k [] = 0
pending k ((provider, n) ∷ m) = (if provider == k then n else 0) + pending k m

stored-append :
    (k : String) (xs ys : List QuotesRow) → stored k (xs ++ ys) ≡ stored k xs + stored k ys
stored-append k [] ys = omega arith
stored-append k (x ∷ xs) ys = omega (arith, stored-append k xs ys)

-- The counters as rows have the same numbers.
stored-map :
    (k : String) (m : Counters)
    → stored k
        (map (λ (e : String × ℕ). record { quotes_provider_name = e.0; quotes_number = e.1 }) m)
      ≡ pending k m
stored-map k [] = refl
stored-map k ((provider, n) ∷ m) = omega (arith, stored-map k m)

stored-save :
    (k : String) (m : Counters)
    → pending k (save_accumulated_quotes_number m).0 + stored k (save_accumulated_quotes_number m).1
      ≡ pending k m
unfolding save_accumulated_quotes_number
stored-save k [] = omega arith
stored-save k (c ∷ m) = omega (arith, stored-map k (c ∷ m))

pending-increment :
    (k provider : String) (n : ℕ) (m : Counters)
    → pending k (increment_quotes_number provider n m)
      ≡ (if provider == k then n else 0) + pending k m
unfolding increment_quotes_number get set
pending-increment k provider n [] = ground arith
pending-increment k provider n ((other, x) ∷ m) = elim (Bool-cases (other == provider)) [
  | inl here ↦ ground (arith, here, (eq_iff other provider).0 here)
  | inr apart ↦ ground (arith, apart, pending-increment k provider n m)
]

-- Over any history, what was stored for a provider and what waits in its counter add up to what was
-- counted for it and what waited before.
pub run_conserves :
    (k : String) (es : List Event) (m : Counters)
    → pending k (run es m).0 + stored k (run es m).1 ≡ counted k es + pending k m
unfolding run step
run_conserves k [] m = omega arith
run_conserves k (quotes provider n ∷ es) m = omega (
  arith,
  run_conserves k es (increment_quotes_number provider n m),
  pending-increment k provider n m,
)
run_conserves k (tick ∷ es) m = omega (
  arith,
  run_conserves k es (save_accumulated_quotes_number m).0,
  stored-save k m,
  stored-append k (save_accumulated_quotes_number m).1
      (run es (save_accumulated_quotes_number m).0).1,
)
