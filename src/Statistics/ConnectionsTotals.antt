-- ===== src/Statistics/ConnectionsTotals.antt =====
-- The counters of users-connections-statistic.service.ts against the rows that are stored and the
-- quotes that were counted.
use boar_pack.Base.{
  ℕ, String, ◌+◌, ◌≡◌, refl, Bool, true, false, ◌&&◌, Option, none, some, List, [], ◌∷◌, ◌++◌,
  text_eq, number_eq, if◌then◌else◌, ◌==◌, Eq, arith, Bool-cases, inl, inr, same_number_iff,
}
use boar_pack.Dict.{get, set}
use boar_pack.Statistics.Quotes.{Counters, or_zero}
use boar_pack.Statistics.Connections.{
  Target, fix_server, websocket_server, ComplexTarget, fix, websocket, as_target, target_eq,
  UserNumbers, Connections, Row, user_row, target_row, or_zeros, plus_for, increment_quotes_number,
  or_empty, increment_quotes_number_by_target, row_unless_zero, user_rows, rows_of_target,
  target_rows, save_accumulated_quotes_number, Event, user_quotes, target_quotes, tick, step, run,
}

-- What is counted: the quotes of a user at one of the targets, or those of a target's identifier.
pub data Key : Type 0 where
  user_key : (user_id : String) → (target : ComplexTarget) → Key
  target_key : (target_id : String) → (target : Target) → Key

abbrev pub in_row : Key → Row → ℕ
in_row (user_key u t) (user_row v s n) = if v == u && s == as_target t then n else 0
in_row (target_key i t) (target_row j s n) = if j == i && s == t then n else 0
in_row _ _ = 0

abbrev pub in_rows : Key → List Row → ℕ
in_rows k [] = 0
in_rows k (r ∷ rows) = in_row k r + in_rows k rows

abbrev pub in_event : Key → Event → ℕ
in_event (user_key u t) (user_quotes v s n) = if v == u && as_target s == as_target t then n else 0
in_event (target_key i t) (target_quotes s j n) = if j == i && s == t then n else 0
in_event _ _ = 0

abbrev pub in_events : Key → List Event → ℕ
in_events k [] = 0
in_events k (e ∷ es) = in_event k e + in_events k es

-- The sum of a measure over the values at a key of a dictionary.
abbrev pub sum_at {ℓ κ} : {K : Type ℓ} {V : Type κ} ⦃e : Eq K⦄ → K → (V → ℕ) → List (K × V) → ℕ
sum_at k f [] = 0
sum_at k f ((j, v) ∷ m) = (if j == k then f v else 0) + sum_at k f m

abbrev pub number_at : ComplexTarget → UserNumbers → ℕ
number_at fix u = u.fix_number
number_at websocket u = u.websocket_number

abbrev pub in_counters : Key → Connections → ℕ
in_counters (user_key u t) c = sum_at u (number_at t) c.by_user
in_counters (target_key i t) c = sum_at t (sum_at i (λ n. n)) c.by_target

abbrev measure {ℓ} : {V : Type ℓ} → (V → ℕ) → Option V → ℕ
measure f none = 0
measure f (some v) = f v

sum_at-set {ℓ κ} :
    {K : Type ℓ} {V : Type κ} ⦃e : Eq K⦄ (k j : K) (f : V → ℕ) (v : V) (m : List (K × V))
    → sum_at k f (set j v m) + (if j == k then measure f (get j m) else 0)
      ≡ sum_at k f m + (if j == k then f v else 0)
unfolding get set
sum_at-set k j f v [] = ground arith
sum_at-set ⦃e⦄ k j f v ((i, w) ∷ m) = elim (Bool-cases (i == j)) [
  | inl here ↦ rw (here, (e.decides i j).0 here) (omega arith)
  | inr apart ↦ rw apart (omega (arith, sum_at-set k j f v m))
]

in_rows-append : (k : Key) (xs ys : List Row) → in_rows k (xs ++ ys) ≡ in_rows k xs + in_rows k ys
in_rows-append k [] ys = omega arith
in_rows-append k (x ∷ xs) ys = omega (arith, in_rows-append k xs ys)

-- The rows have the numbers of the counters, each in its own kind.
in_row_unless_zero :
    (k : Key) (v : String) (s : ComplexTarget) (n : ℕ)
    → in_rows k (row_unless_zero v (as_target s) n) ≡ in_row k (user_row v (as_target s) n)
in_row_unless_zero (user_key u t) v s n = ground (arith, same_number_iff n 0)
in_row_unless_zero (target_key i t) v s n = ground (arith, same_number_iff n 0)

first_user_rows :
    (k : Key) (v : String) (n : UserNumbers) (m : List (String × UserNumbers))
    → in_rows k (user_rows ((v, n) ∷ m))
      ≡ in_row k (user_row v fix_server n.fix_number)
        + in_row k (user_row v websocket_server n.websocket_number)
        + in_rows k (user_rows m)
first_user_rows k v n m = ground (
  arith,
  in_rows-append k (row_unless_zero v fix_server n.fix_number)
      (row_unless_zero v websocket_server n.websocket_number ++ user_rows m),
  in_rows-append k (row_unless_zero v websocket_server n.websocket_number) (user_rows m),
  in_row_unless_zero k v fix n.fix_number,
  in_row_unless_zero k v websocket n.websocket_number,
)

in_user_rows :
    (u : String) (t : ComplexTarget) (m : List (String × UserNumbers))
    → in_rows (user_key u t) (user_rows m) ≡ sum_at u (number_at t) m
in_user_rows u t [] = refl
in_user_rows u fix ((v, n) ∷ m) =
    ground (arith, first_user_rows (user_key u fix) v n m, in_user_rows u fix m)
in_user_rows u websocket ((v, n) ∷ m) =
    ground (arith, first_user_rows (user_key u websocket) v n m, in_user_rows u websocket m)

none_of_target :
    (u : String) (t : ComplexTarget) (s : Target) (m : Counters)
    → in_rows (user_key u t) (rows_of_target s m) ≡ 0
none_of_target u t s [] = refl
none_of_target u t s ((j, n) ∷ m) = omega (arith, none_of_target u t s m)

no_user_rows :
    (u : String) (t : ComplexTarget) (ms : List (Target × Counters))
    → in_rows (user_key u t) (target_rows ms) ≡ 0
no_user_rows u t [] = refl
no_user_rows u t ((s, m) ∷ ms) = omega (
  arith,
  in_rows-append (user_key u t) (rows_of_target s m) (target_rows ms),
  none_of_target u t s m,
  no_user_rows u t ms,
)

no_target_rows :
    (i : String) (t : Target) (m : List (String × UserNumbers))
    → in_rows (target_key i t) (user_rows m) ≡ 0
no_target_rows i t [] = refl
no_target_rows i t ((v, n) ∷ m) =
    omega (arith, first_user_rows (target_key i t) v n m, no_target_rows i t m)

in_rows_of_target :
    (i : String) (t s : Target) (m : Counters)
    → in_rows (target_key i t) (rows_of_target s m) ≡ (if s == t then sum_at i (λ n. n) m else 0)
in_rows_of_target i t s [] = ground arith
in_rows_of_target i t s ((j, n) ∷ m) = ground (arith, in_rows_of_target i t s m)

in_target_rows :
    (i : String) (t : Target) (ms : List (Target × Counters))
    → in_rows (target_key i t) (target_rows ms) ≡ sum_at t (sum_at i (λ n. n)) ms
in_target_rows i t [] = refl
in_target_rows i t ((s, m) ∷ ms) = omega (
  arith,
  in_rows-append (target_key i t) (rows_of_target s m) (target_rows ms),
  in_rows_of_target i t s m,
  in_target_rows i t ms,
)

measured :
    (t : ComplexTarget) (o : Option UserNumbers)
    → measure (number_at t) o ≡ number_at t (or_zeros o)
measured fix none = refl
measured websocket none = refl
measured t (some u) = refl

number_plus :
    (t s : ComplexTarget) (n : ℕ) (u : UserNumbers)
    → number_at t (plus_for s n u) ≡ (if as_target s == as_target t then n else 0) + number_at t u
number_plus fix fix n u = omega arith
number_plus fix websocket n u = omega arith
number_plus websocket fix n u = omega arith
number_plus websocket websocket n u = omega arith

measured_counters :
    (i : String) (o : Option Counters)
    → measure (sum_at i (λ n. n)) o ≡ sum_at i (λ n. n) (or_empty o)
measured_counters i none = refl
measured_counters i (some m) = refl

measured_number : (o : Option ℕ) → measure (λ n. n) o ≡ or_zero o
measured_number none = refl
measured_number (some n) = refl

increment-user :
    (k : Key) (v : String) (s : ComplexTarget) (n : ℕ) (c : Connections)
    → in_counters k (increment_quotes_number v s n c)
      ≡ in_event k (user_quotes v s n) + in_counters k c
unfolding increment_quotes_number
increment-user (user_key u t) v s n c =
    let numbers = or_zeros (get v c.by_user) in
    ground (
      arith,
      sum_at-set u v (number_at t) (plus_for s n numbers) c.by_user,
      measured t (get v c.by_user),
      number_plus t s n numbers,
    )
increment-user (target_key i t) v s n c = omega arith

increment-target :
    (k : Key) (s : Target) (j : String) (n : ℕ) (c : Connections)
    → in_counters k (increment_quotes_number_by_target s j n c)
      ≡ in_event k (target_quotes s j n) + in_counters k c
unfolding increment_quotes_number_by_target
increment-target (user_key u t) s j n c = omega arith
increment-target (target_key i t) s j n c =
    let numbers = or_empty (get s c.by_target) in
    let more = set j (or_zero (get j numbers) + n) numbers in
    ground (
      arith,
      sum_at-set t s (sum_at i (λ n. n)) more c.by_target,
      measured_counters i (get s c.by_target),
      sum_at-set i j (λ n. n) (or_zero (get j numbers) + n) numbers,
      measured_number (get j numbers),
    )

targets-conserve :
    (k : Key) (works : Bool) (ms : List (Target × Counters))
    → in_rows k (if works then target_rows ms else [])
        + in_rows k (if works then [] else target_rows ms)
      ≡ in_rows k (target_rows ms)
targets-conserve k true ms = omega arith
targets-conserve k false ms = omega arith

users-conserve :
    (k : Key) (a b : Bool) (us : List (String × UserNumbers)) (ms : List (Target × Counters))
    → let c : Connections = record { by_user = us; by_target = ms } in
      in_counters k (save_accumulated_quotes_number a b c).counters
        + (in_rows k (save_accumulated_quotes_number a b c).saved
            + in_rows k (save_accumulated_quotes_number a b c).lost)
      ≡ in_counters k c
unfolding save_accumulated_quotes_number
users-conserve (user_key u t) a b [] ms =
    ground (arith, targets-conserve (user_key u t) b ms, no_user_rows u t ms)
users-conserve (target_key i t) a b [] ms =
    ground (arith, targets-conserve (target_key i t) b ms, in_target_rows i t ms)
users-conserve (user_key u t) true b (x ∷ us) ms = ground (
  arith,
  targets-conserve (user_key u t) b ms,
  no_user_rows u t ms,
  in_user_rows u t (x ∷ us),
  in_rows-append (user_key u t) (user_rows (x ∷ us)) (if b then target_rows ms else []),
)
users-conserve (target_key i t) true b (x ∷ us) ms = ground (
  arith,
  targets-conserve (target_key i t) b ms,
  in_target_rows i t ms,
  no_target_rows i t (x ∷ us),
  in_rows-append (target_key i t) (user_rows (x ∷ us)) (if b then target_rows ms else []),
)
users-conserve (user_key u t) false b (x ∷ us) ms = omega (arith, in_user_rows u t (x ∷ us))
users-conserve (target_key i t) false b (x ∷ us) ms = omega (arith, no_target_rows i t (x ∷ us))

save-conserves :
    (k : Key) (a b : Bool) (c : Connections)
    → in_counters k (save_accumulated_quotes_number a b c).counters
        + (in_rows k (save_accumulated_quotes_number a b c).saved
            + in_rows k (save_accumulated_quotes_number a b c).lost)
      ≡ in_counters k c
save-conserves k a b c = users-conserve k a b c.by_user c.by_target

no_event : (k : Key) (a b : Bool) → in_event k (tick a b) ≡ 0
no_event (user_key u t) a b = refl
no_event (target_key i t) a b = refl

-- Over any history, for each user and each target's identifier, what is stored, what was in a save
-- that failed and what waits in the counters add up to what was counted and what waited before.
pub counters_conserve :
    (k : Key) (es : List Event) (c : Connections)
    → in_counters k (run es c).counters + (in_rows k (run es c).saved + in_rows k (run es c).lost)
      ≡ in_events k es + in_counters k c
unfolding run step
counters_conserve k [] c = omega arith
counters_conserve k (user_quotes v s n ∷ es) c =
    omega
      (arith, increment-user k v s n c, counters_conserve k es (increment_quotes_number v s n c))
counters_conserve k (target_quotes s j n ∷ es) c = omega (
  arith,
  increment-target k s j n c,
  counters_conserve k es (increment_quotes_number_by_target s j n c),
)
counters_conserve k (tick a b ∷ es) c =
    let now = save_accumulated_quotes_number a b c in
    let later = run es now.counters in
    omega (
      arith,
      no_event k a b,
      save-conserves k a b c,
      counters_conserve k es now.counters,
      in_rows-append k now.saved later.saved,
      in_rows-append k now.lost later.lost,
    )
