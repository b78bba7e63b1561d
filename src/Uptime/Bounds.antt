-- ===== src/Uptime/Bounds.antt =====
-- The period of an instance over the life of the instances that share the table.
use boar_pack.Base.{
  ℕ, String, ◌≡◌, refl, ap, ◌∙◌, ◌≢◌, ◌<◌, Bool, true, false, not, ◌&&◌, ◌||◌, Option, none, some,
  List, [], ◌∷◌, number_eq, text_eq, ◌==◌, if◌then◌else◌, truthy_text, ltb, all, arith, Bool-cases,
  Option-cases, inl, inr, text_apart,
}
use boar_pack.Dict.{get, set, get-set, get-set_same}
use mathlib.Core.Option.{some-injective}
use text.Mathlib.TextEquality.{eq_iff}
use boar_pack.Uptime.Service.{
  ApiStatistic, Instance, World, Event, constructed, initialised, ticked, destroyed, on_module_init,
  update, update_uptime_statistic, on_module_destroy, step, run,
}

-- The moments at which an instance updates its row.
abbrev moment_of : ℕ → Event → List ℕ → List ℕ
moment_of n (ticked m u) us = if m == n then u ∷ us else us
moment_of n (destroyed m u) us = if m == n then u ∷ us else us
moment_of n _ us = us

abbrev pub moments : ℕ → List Event → List ℕ
moments n [] = []
moments n (e ∷ es) = moment_of n e (moments n es)

-- The events after the start at `t` of the instance `n` with the row `id`: it is not started again,
-- the database generates the id for no other, and the moments of its updates are later than `t`.
abbrev pub in_life : ℕ → String → ℕ → Event → Bool
in_life n id t (constructed m name) = not (m == n)
in_life n id t (initialised m now j) = not (m == n) && not (j == id)
in_life n id t (ticked m u) = not (m == n) || ltb t u
in_life n id t (destroyed m u) = not (m == n) || ltb t u

-- No instance has the row.
abbrev pub Unheld : String → List (ℕ × Instance) → Type 0
Unheld id instances =
    (m : ℕ) (s : Instance) → get m instances ≡ some s → s.last_inserted_id ≢ some id

abbrev Owned : ℕ → String → List (ℕ × Instance) → Type 0
Owned n id instances =
    (m : ℕ) (s : Instance)
    → get m instances ≡ some s
    → (m == n) ≡ false
    → s.last_inserted_id ≢ some id

module _ {Period : Type 0} (opened : ℕ → Period) (closed : Option ℕ → ℕ → Option Period)
    (lower : Period → Option ℕ) where
  -- The period from `t` to the last of the moments, or the one before if there is none.
  abbrev pub until_last : ℕ → Period → List ℕ → Period
  until_last t p [] = p
  until_last t p (u ∷ us) = until_last t (elim (closed (some t) u) [ some q ↦ q | none ↦ p ]) us

  -- `tstzrange` of a bound and a later one is a range from that bound.
  abbrev pub Ranges : Type 0
  Ranges = (t u : ℕ) → t < u → (q : Period) × (closed (some t) u ≡ some q) × (lower q ≡ some t)

  get-update :
      (now : ℕ) (s : Instance) (table : List (String × ApiStatistic Period)) (id : String)
      → s.last_inserted_id ≢ some id
      → get id (update opened closed lower now s table) ≡ get id table
  unfolding update
  get-update now s table id apart = elim (Option-cases s.last_inserted_id) [
    | inl absent ↦ rw (absent, update) refl
    | inr (j, is) ↦
        rw (is, update)
          (elim (Option-cases (get j table)) [
            | inl missing ↦ rw missing refl
            | inr (row, there) ↦
                rw there (elim (Option-cases (closed (lower row.uptime_period) now)) [
                  | inl raises ↦ rw raises refl
                  | inr (p, ends) ↦ rw ends (elim (Bool-cases (j == id)) [
                    | inl same ↦ elim (apart (is ∙ ap some ((eq_iff j id).0 same))) [ ]
                    | inr other ↦ get-set j id _ table ∙ rw other refl
                  ])
                ])
          ])
  ]

  update-own :
      (now : ℕ) (s : Instance) (table : List (String × ApiStatistic Period)) (id name : String)
      (p q : Period) (t : ℕ)
      → s.last_inserted_id ≡ some id
      → get id table ≡ some (record { service_name = name; uptime_period = p })
      → lower p ≡ some t
      → closed (some t) now ≡ some q
      → get id (update opened closed lower now s table)
        ≡ some (record { service_name = name; uptime_period = q })
  unfolding update
  update-own now s table id name p q t is there begins ends =
      rw (is, update, there, begins, ends) (get-set_same id _ table)

  -- The instance `n` has the row `id`, with its name and a period from `t`.
  Alive : ℕ → String → String → ℕ → Period → World Period → Type 0
  Alive n id name t q w =
      (get n w.instances ≡ some (record { service_name = some name; last_inserted_id = some id }))
      × Owned n id w.instances
      × (get id w.table ≡ some (record { service_name = name; uptime_period = q }))
      × (lower q ≡ some t)

  set-Owned :
      (n m : ℕ) (id : String) (s : Instance) (instances : List (ℕ × Instance))
      → s.last_inserted_id ≢ some id
      → Owned n id instances
      → Owned n id (set m s instances)
  set-Owned n m id s instances apart owned k r found other = elim (Bool-cases (m == k)) [
    | inl here ↦ λ e. apart (
        ap (λ x. x.last_inserted_id)
          (some-injective _ _ (rw (get-set m k s instances, here) at found))
        ∙ e)
    | inr there ↦ owned k r (rw (get-set m k s instances, there) at found) other
  ]

  own-Owned :
      (n : ℕ) (id : String) (s : Instance) (instances : List (ℕ × Instance))
      → Owned n id instances
      → Owned n id (set n s instances)
  own-Owned n id s instances owned k r found other = elim (Bool-cases (n == k)) [
    | inl here ↦ ground (arith, here, other)
    | inr there ↦ owned k r (rw (get-set n k s instances, there) at found) other
  ]

  step-constructed :
      (m : ℕ) (service_name : Option String) (n : ℕ) (id name : String) (t : ℕ) (q : Period)
      (w : World Period)
      → (m == n) ≡ false
      → Alive n id name t q w
      → Alive n id name t q (step opened closed lower (constructed m service_name) w)
  unfolding step Alive
  step-constructed m service_name n id name t q w other (mine, owned, row, begins) = (
    get-set m n _ w.instances ∙ rw other mine,
    set-Owned n m id _ w.instances (λ e. cc e) owned,
    row,
    begins,
  )

  init-apart :
      (now : ℕ) (j id : String) (s : Instance) (table : List (String × ApiStatistic Period))
      → (j == id) ≡ false
      → s.last_inserted_id ≢ some id
      → let (s', table') = on_module_init opened closed lower now j s table in
        (s'.last_inserted_id ≢ some id) × (get id table' ≡ get id table)
  unfolding on_module_init
  init-apart now j id s table other apart = elim (Option-cases s.service_name) [
    | inl unnamed ↦ rw unnamed (apart, refl)
    | inr (name, named) ↦ rw named (elim (Bool-cases (name == "")) [
      | inl blank ↦ rw blank (apart, refl)
      | inr called ↦
          rw called (
            λ e. text_apart j id other (some-injective _ _ e),
            get-set j id _ table ∙ rw other refl,
          )
    ])
  ]

  step-initialised :
      (m now : ℕ) (j : String) (n : ℕ) (id name : String) (t : ℕ) (q : Period) (w : World Period)
      → (m == n) ≡ false
      → (j == id) ≡ false
      → Alive n id name t q w
      → Alive n id name t q (step opened closed lower (initialised m now j) w)
  unfolding step Alive
  step-initialised m now j n id name t q w other elsewhere (mine, owned, row, begins) =
      elim (Option-cases (get m w.instances)) [
        | inl absent ↦ rw (step, absent) (mine, owned, row, begins)
        | inr (s, there) ↦
            let (apart, kept) = init-apart now j id s w.table elsewhere (owned m s there other) in
            rw (step, there)
              (
                get-set m n _ w.instances ∙ rw other mine,
                set-Owned n m id _ w.instances apart owned,
                kept ∙ row,
                begins,
              )
      ]

  -- Both updates: of the instance itself, later than its start, and of another.
  tick-own :
      (now : ℕ) (id name : String) (t : ℕ) (q : Period)
      (table : List (String × ApiStatistic Period))
      → (name == "") ≡ false
      → (id == "") ≡ false
      → get id table ≡ some (record { service_name = name; uptime_period = q })
      → lower q ≡ some t
      → (q' : Period) → closed (some t) now ≡ some q'
      → let s : Instance = record { service_name = some name; last_inserted_id = some id } in
        let row : Option (ApiStatistic Period) =
          some (record { service_name = name; uptime_period = q' }) in
        (get id (update_uptime_statistic opened closed lower now s table) ≡ row)
        × (get id (on_module_destroy opened closed lower now s table) ≡ row)
  unfolding update_uptime_statistic on_module_destroy
  tick-own now id name t q table named held row begins q' ends =
      let updated = update-own now _ table id name q q' t refl row begins ends in
      (rw (named, held) updated, rw named updated)

  tick-other :
      (now : ℕ) (s : Instance) (table : List (String × ApiStatistic Period)) (id : String)
      → s.last_inserted_id ≢ some id
      → (get id (update_uptime_statistic opened closed lower now s table) ≡ get id table)
        × (get id (on_module_destroy opened closed lower now s table) ≡ get id table)
  unfolding update_uptime_statistic on_module_destroy
  tick-other now s table id apart =
      let kept = get-update now s table id apart in
      (
        elim (Bool-cases
            (not (truthy_text s.service_name) || not (truthy_text s.last_inserted_id))) [
              | inl off ↦ rw off refl
              | inr on ↦ rw on kept
            ],
        elim (Bool-cases (not (truthy_text s.service_name))) [
          | inl off ↦ rw off refl
          | inr on ↦ rw on kept
        ],
      )

  -- The period after one update of the instance `m`.
  abbrev after : ℕ → ℕ → Period → ℕ → ℕ → Period
  after n t q m u = if m == n then until_last t q (u ∷ []) else q

  step-updates :
      (m u n : ℕ) (id name : String) (t : ℕ) (q : Period) (w : World Period)
      → Ranges
      → (name == "") ≡ false
      → (id == "") ≡ false
      → (not (m == n) || ltb t u) ≡ true
      → Alive n id name t q w
      → Alive n id name t (after n t q m u) (step opened closed lower (ticked m u) w)
        × Alive n id name t (after n t q m u) (step opened closed lower (destroyed m u) w)
  unfolding step Alive
  step-updates m u n id name t q w ranges named held later (mine, owned, row, begins) =
      elim (Bool-cases (m == n)) [
        | inl same ↦
            let there = ap (λ k. get k w.instances) ((number_eq.decides m n).0 same) ∙ mine in
            let (q', ends, from) = ranges t u (ground (arith, later, same)) in
            let (a, b) = tick-own u id name t q w.table named held row begins q' ends in
            rw (same, after, until_last, ends, step, there)
              ((mine, owned, a, from), (mine, owned, b, from))
        | inr other ↦ elim (Option-cases (get m w.instances)) [
          | inl absent ↦
              rw (other, step, absent) ((mine, owned, row, begins), (mine, owned, row, begins))
          | inr (s, there) ↦
              let (a, b) = tick-other u s w.table id (owned m s there other) in
              rw (other, step, there)
                ((mine, owned, a ∙ row, begins), (mine, owned, b ∙ row, begins))
        ]
      ]

  until_last-after :
      (n t : ℕ) (q : Period) (m u : ℕ) (us : List ℕ)
      → until_last t (after n t q m u) us ≡ until_last t q (if m == n then u ∷ us else us)
  until_last-after n t q m u us = elim (Bool-cases (m == n)) [
    | inl same ↦ rw same refl
    | inr other ↦ rw other refl
  ]

  start-Alive :
      (n : ℕ) (id name : String) (t : ℕ) (w : World Period)
      → lower (opened t) ≡ some t
      → (name == "") ≡ false
      → Unheld id w.instances
      → Alive n id name t (opened t) (
          step opened closed lower
            (initialised n t id)
            (step opened closed lower (constructed n (some name)) w))
  unfolding step Alive on_module_init
  start-Alive n id name t w opens named unheld =
      let new : Instance = record { service_name = some name; last_inserted_id = none } in
      let made = get-set_same n new w.instances in
      rw (step, made, named)
        (
          get-set_same n _ _,
          own-Owned n id _ _ (own-Owned n id new _ (λ k s found other. unheld k s found)),
          get-set_same id _ w.table,
          opens,
        )

  run-Alive :
      (es : List Event) (n : ℕ) (id name : String) (t : ℕ) (q : Period) (w : World Period)
      → Ranges
      → (name == "") ≡ false
      → (id == "") ≡ false
      → all (in_life n id t) es ≡ true
      → Alive n id name t q w
      → Alive n id name t (until_last t q (moments n es)) (run opened closed lower es w)
  unfolding run
  run-Alive [] n id name t q w ranges named held lives alive = alive
  run-Alive (constructed m service_name ∷ es) n id name t q w ranges named held lives alive =
      run-Alive es n id name t q _ ranges named held (ground (arith, lives))
        (step-constructed m service_name n id name t q w (ground (arith, lives)) alive)
  run-Alive (initialised m now j ∷ es) n id name t q w ranges named held lives alive =
      run-Alive es n id name t q _ ranges named held (ground (arith, lives)) (
        step-initialised m now j n id name t q w (ground (arith, lives)) (ground (arith, lives))
          alive)
  run-Alive (ticked m u ∷ es) n id name t q w ranges named held lives alive =
      rw⁻¹ (until_last-after n t q m u (moments n es)) (
        run-Alive es n id name t _ _ ranges named held (ground (arith, lives))
          (step-updates m u n id name t q w ranges named held (ground (arith, lives)) alive).0)
  run-Alive (destroyed m u ∷ es) n id name t q w ranges named held lives alive =
      rw⁻¹ (until_last-after n t q m u (moments n es)) (
        run-Alive es n id name t _ _ ranges named held (ground (arith, lives))
          (step-updates m u n id name t q w ranges named held (ground (arith, lives)) alive).1)

  -- If the moments of an instance's updates are later than its start, `tstzrange` of a bound and a
  -- later one is a range from that bound, and no instance has its row before or gets it after, then
  -- after any history of the instances its row has its name and the period from the start to the last
  -- of those moments, the open one if there is none, whose lower bound is the start.
  pub run-uptime :
      (es : List Event) (n : ℕ) (id name : String) (t : ℕ) (w : World Period)
      → Ranges
      → lower (opened t) ≡ some t
      → (name == "") ≡ false
      → (id == "") ≡ false
      → Unheld id w.instances
      → all (in_life n id t) es ≡ true
      → let history = constructed n (some name) ∷ initialised n t id ∷ es in
        let period = until_last t (opened t) (moments n es) in
        (get id (run opened closed lower history w).table
          ≡ some (record { service_name = name; uptime_period = period }))
        × (lower period ≡ some t)
  unfolding run Alive
  run-uptime es n id name t w ranges opens named held unheld lives =
      let alive =
        run-Alive es n id name t (opened t) _ ranges named held lives
          (start-Alive n id name t w opens named unheld) in
      (alive.2, alive.3)
