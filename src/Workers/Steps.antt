-- ===== src/Workers/Steps.antt =====
-- What each operation of cluster.service.ts does to the processes of one worker.
use boar_pack.Base.{
  ℕ, String, ◌≡◌, refl, sym, ap, ◌∙◌, same_number_iff, Bool, true, false, ◌||◌, Option, none, some,
  List, [], ◌∷◌, ◌++◌, text_eq, number_eq, if◌then◌else◌, ◌==◌, find, any, member, arith,
  Bool-cases, Option-cases, inl, inr, ◌⊎◌,
}
use text.Mathlib.TextEquality.{eq_iff}
use boar_pack.Dict.{get, set, delete, get-set, get-delete}
use boar_pack.Workers.Cluster.{
  WorkerSettings, Descriptor, Cluster, Signal, sigkill, sigterm, take_out, worker_exits, is_called,
  set_worker_state, Event, sets,
}

abbrev pub is_running : String → Cluster → Bool
is_running w cl = any (is_called w) cl.workers

-- What one of the values of a dictionary satisfies after a change.
pub any-set :
    (p : ℕ × Descriptor → Bool) (id : ℕ) (d : Descriptor) (m : List (ℕ × Descriptor))
    → p (id, d) ≡ true
    → any p (set id d m) ≡ true
unfolding set
any-set p id d [] h = ground (arith, h)
any-set p id d ((i, c) ∷ m) h = elim (Bool-cases (i == id)) [
  | inl here ↦ ground (arith, here, h, ap (λ j. p (j, d)) ((same_number_iff i id).0 here))
  | inr other ↦ rw other (ground (arith, any-set p id d m h))
]

pub none-set :
    (p : ℕ × Descriptor → Bool) (id : ℕ) (d : Descriptor) (m : List (ℕ × Descriptor))
    → p (id, d) ≡ false
    → any p m ≡ false
    → any p (set id d m) ≡ false
unfolding set
none-set p id d [] h k = ground (arith, h)
none-set p id d ((i, c) ∷ m) h k = elim (Bool-cases (i == id)) [
  | inl here ↦ ground (arith, here, h, k, ap (λ j. p (j, d)) ((same_number_iff i id).0 here))
  | inr other ↦ rw other (ground (arith, k, none-set p id d m h))
]

pub none-delete :
    (p : ℕ × Descriptor → Bool) (id : ℕ) (m : List (ℕ × Descriptor))
    → any p m ≡ false
    → any p (delete id m) ≡ false
unfolding delete
none-delete p id [] k = k
none-delete p id ((i, c) ∷ m) k = ground (arith, k, none-delete p id m)

abbrev pub met : (ℕ × Descriptor → Bool) → ℕ → Option Descriptor → Bool
met p i none = false
met p i (some d) = p (i, d)

pub none-get :
    (p : ℕ × Descriptor → Bool) (id : ℕ) (d : Descriptor) (m : List (ℕ × Descriptor))
    → any p m ≡ false
    → get id m ≡ some d
    → p (id, d) ≡ false
unfolding get
none-get p id d [] k h = cc
none-get p id d ((i, c) ∷ m) k h = elim (Bool-cases (i == id)) [
  | inl here ↦ ground (
    arith,
    here,
    k,
    ap (met p i) (rw here at h),
    ap (λ j. p (j, d)) ((same_number_iff i id).0 here),
  )
  | inr other ↦ none-get p id d m (ground (arith, k)) (rw other at h)
]

pub member-take_out :
    (w v : String) (xs : List String) → member w xs ≡ false → member w (take_out v xs) ≡ false
member-take_out w v [] h = h
member-take_out w v (x ∷ xs) h = ground (arith, h, member-take_out w v xs)

pub find-none :
    (p : ℕ × Descriptor → Bool) (m : List (ℕ × Descriptor)) → any p m ≡ false → find p m ≡ none
find-none p [] h = refl
find-none p (e ∷ m) h = elim (Bool-cases (p e)) [
  | inl here ↦ ground (arith, h, here)
  | inr other ↦ rw other (find-none p m (ground (arith, h, other)))
]

pub set_worker_state-down :
    (w : String) (state : Bool) (cl : Cluster)
    → is_running w cl ≡ false
    → (set_worker_state w state cl).0
      ≡ (if state then record cl { starting = cl.starting ++ w ∷ [] } else cl)
unfolding set_worker_state
set_worker_state-down w state cl down =
    rw (find-none (is_called w) cl.workers down, set_worker_state) refl

pub set_worker_state-cluster :
    (w : String) (state : Bool) (cl : Cluster)
    → ((set_worker_state w state cl).0 ≡ cl)
      ⊎ ((state ≡ true)
          × ((set_worker_state w state cl).0 ≡ record cl { starting = cl.starting ++ w ∷ [] }))
unfolding set_worker_state
set_worker_state-cluster w true cl = elim (Option-cases (find (is_called w) cl.workers)) [
  | inl e ↦ inr (refl, rw (e, set_worker_state) refl)
  | inr (d, e) ↦ inl (rw (e, set_worker_state) refl)
]
set_worker_state-cluster w false cl = elim (Option-cases (find (is_called w) cl.workers)) [
  | inl e ↦ inl (rw (e, set_worker_state) refl)
  | inr (d, e) ↦ inl (rw (e, set_worker_state) refl)
]

pub worker_exits-cluster :
    (id : ℕ) (signal : Signal) (cl : Cluster)
    → (worker_exits id signal cl ≡ cl)
      ⊎ ((d : Descriptor) × (get id cl.workers ≡ some d)
          × ((worker_exits id signal cl ≡ record cl { workers = delete id cl.workers })
              ⊎ (worker_exits id signal cl ≡ record {
                workers = delete id cl.workers;
                starting = cl.starting ++ d.worker_id ∷ [];
              })))
unfolding worker_exits
worker_exits-cluster id sigkill cl = elim (Option-cases (get id cl.workers)) [
  | inl e ↦ inl (rw (e, worker_exits) refl)
  | inr (d, e) ↦ inr (d, e, inl (rw (e, worker_exits) refl))
]
worker_exits-cluster id sigterm cl = elim (Option-cases (get id cl.workers)) [
  | inl e ↦ inl (rw (e, worker_exits) refl)
  | inr (d, e) ↦ inr (d, e, inr (rw (e, worker_exits) refl))
]

pub member-apart :
    (v w x : String) (xs : List String)
    → member v xs ≡ true
    → member w xs ≡ false
    → x ≡ v
    → (x == w) ≡ false
member-apart v w x xs h k e = elim (Bool-cases (x == w)) [
  | inl same ↦ ground (arith, h, k, ap (λ y. member y xs) (sym e ∙ (eq_iff x w).0 same))
  | inr apart ↦ apart
]

-- No process runs for the worker, and none is about to.
abbrev pub IsStopped : String → Cluster → Type 0
IsStopped w cl = (is_running w cl ≡ false) × (member w cl.starting ≡ false)

-- The variables of each process name its worker.
abbrev pub IsNamedAt : Option Descriptor → Type 0
IsNamedAt none = Unit
IsNamedAt (some d) = get "WORKER" d.worker_vars ≡ some d.worker_id

abbrev pub IsNamed : Cluster → Type 0
IsNamed cl = (id : ℕ) → IsNamedAt (get id cl.workers)

pub either-IsNamedAt :
    (b : Bool) (x y : Option Descriptor)
    → IsNamedAt x
    → IsNamedAt y
    → IsNamedAt (if b then x else y)
either-IsNamedAt true x y h k = h
either-IsNamedAt false x y h k = k

pub named-set :
    (id : ℕ) (d : Descriptor) (m : List (ℕ × Descriptor))
    → IsNamedAt (some d)
    → ((j : ℕ) → IsNamedAt (get j m))
    → (j : ℕ) → IsNamedAt (get j (set id d m))
named-set id d m h k j =
    rw (get-set id j d m) (either-IsNamedAt (id == j) (some d) (get j m) h (k j))

pub named-delete :
    (id : ℕ) (m : List (ℕ × Descriptor))
    → ((j : ℕ) → IsNamedAt (get j m))
    → (j : ℕ) → IsNamedAt (get j (delete id m))
named-delete id m k j = rw (get-delete id j m) (either-IsNamedAt (id == j) none (get j m) tt (k j))

-- The event is a call that asks for the worker.
abbrev pub asks_for : String → Event → Bool
asks_for w (sets v true) = v == w
asks_for w _ = false

-- Named and stopped.
unfoldable pub IsDown : String → Cluster → Type 0
IsDown w cl = IsNamed cl × IsStopped w cl

pub called_own :
    (w : String) (id : ℕ) (d : Descriptor)
    → get "WORKER" d.worker_vars ≡ some d.worker_id
    → is_called w (id, d) ≡ (d.worker_id == w)
called_own w id d h = rw (h, is_called) refl

pub member-append :
    (w : String) (xs ys : List String) → member w (xs ++ ys) ≡ (member w xs || member w ys)
member-append w [] ys = refl
member-append w (x ∷ xs) ys = ground (arith, member-append w xs ys)

pub set_worker_state-IsDown :
    (w v : String) (state : Bool) (cl : Cluster)
    → asks_for w (sets v state) ≡ false
    → IsDown w cl
    → IsDown w (set_worker_state v state cl).0
unfolding IsDown
set_worker_state-IsDown w v false cl quiet (named, (down, idle)) =
    elim (set_worker_state-cluster v false cl) [
      | inl e ↦ rw e (named, (down, idle))
      | inr (on, e) ↦ ground (arith, on)
    ]
set_worker_state-IsDown w v true cl quiet (named, (down, idle)) =
    elim (set_worker_state-cluster v true cl) [
      | inl e ↦ rw e (named, (down, idle))
      | inr (on, e) ↦
          rw e (named, (down, ground (arith, quiet, idle, member-append w cl.starting (v ∷ []))))
    ]

pub worker_exits-IsDown :
    (w : String) (id : ℕ) (signal : Signal) (cl : Cluster)
    → IsDown w cl
    → IsDown w (worker_exits id signal cl)
unfolding IsDown
worker_exits-IsDown w id signal cl (named, (down, idle)) =
    elim (worker_exits-cluster id signal cl) [
      | inl e ↦ rw e (named, (down, idle))
      | inr (d, found, inl e) ↦
          rw e
            (named-delete id cl.workers named, (none-delete (is_called w) id cl.workers down, idle))
      | inr (d, found, inr e) ↦ rw e (
        named-delete id cl.workers named,
        (
          none-delete (is_called w) id cl.workers down,
          ground (
            arith,
            idle,
            member-append w cl.starting (d.worker_id ∷ []),
            called_own w id d (rw found at (named id)),
            none-get (is_called w) id d cl.workers down found,
          ),
        ),
      )
    ]

abbrev pub named_by : (WorkerSettings → String) → Option WorkerSettings → String
named_by f none = ""
named_by f (some s) = f s

pub find-satisfies :
    (f : WorkerSettings → String) (w : String) (xs : List WorkerSettings) (s : WorkerSettings)
    → find (λ t. f t == w) xs ≡ some s
    → f s ≡ w
find-satisfies f w [] s h = cc
find-satisfies f w (x ∷ xs) s h = elim (Bool-cases (f x == w)) [
  | inl here ↦ cc ((eq_iff (f x) w).0 here, ap (named_by f) (rw here at h))
  | inr other ↦ find-satisfies f w xs s (rw other at h)
]
