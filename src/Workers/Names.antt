-- ===== src/Workers/Names.antt =====
-- Whether the variables of a process of cluster.service.ts name its worker.
use boar_pack.Base.{
  ℕ, ◌+◌, String, ◌≡◌, refl, ◌∙◌, false, some, List, [], ◌∷◌, text_eq, ◌==◌, find, All, arith,
  truthy_number, Bool-cases, Option-cases, inl, inr,
}
use mathlib.Core.Path.{subst}
use mathlib.Core.Option.{some-injective}
use boar_pack.Dict.{get, set, has, get-set_apart}
use boar_pack.Workers.Cluster.{
  Env, ClusterSettings, WorkerSettings, spread, with_port, vars_of, Event, goes_on,
}

get-spread :
    (k : String) (extra base : Env) → has k extra ≡ false → get k (spread extra base) ≡ get k base
unfolding has
get-spread k [] base h = refl
get-spread k ((j, v) ∷ extra) base h =
    get-spread k extra (set j v base) (ground (arith, h))
    ∙ get-set_apart j k v base (ground (arith, h))

module _ (text : ℕ → String) (base_port : ℕ) (on_worker_run : WorkerSettings → Env → Env) where
  get-with_port :
      (s : WorkerSettings) (vars : Env)
      → get "WORKER" (with_port text base_port on_worker_run s vars) ≡ get "WORKER" vars
  get-with_port s vars = elim (Bool-cases (truthy_number s.port)) [
    | inl given ↦ elim (Option-cases s.port) [
      | inl absent ↦ rw (with_port, given, absent) refl
      | inr (p, there) ↦
          rw (with_port, given, there) (get-set_apart "PORT" "WORKER" (text p) vars refl)
    ]
    | inr missing ↦ elim (Option-cases s.port_increment) [
      | inl absent ↦ rw (with_port, missing, absent) refl
      | inr (i, there) ↦
          rw (with_port, missing, there)
            (get-set_apart "PORT" "WORKER" (text (base_port + i)) vars refl)
    ]
  ]

  -- The variables that a worker of the settings is started with name it.
  abbrev pub NamesWorker : ClusterSettings → WorkerSettings → Type 0
  NamesWorker c s = get "WORKER" (vars_of text base_port on_worker_run c s) ≡ some s.worker_id

  abbrev pub Names : ClusterSettings → List WorkerSettings → Type 0
  Names c settings = All (NamesWorker c) settings

  -- So it is with the settings that a start meets.
  abbrev pub NamesWorkers : Event → Type 0
  NamesWorkers (goes_on c settings w id) = Names c settings
  NamesWorkers _ = Unit

  -- They do where neither the further variables nor the hook set `WORKER`.
  pub vars_of-NamesWorker :
      (c : ClusterSettings) (s : WorkerSettings)
      → has "WORKER" s.extra_env ≡ false
      → ((vars : Env) → get "WORKER" (on_worker_run s vars) ≡ get "WORKER" vars)
      → NamesWorker c s
  unfolding get
  vars_of-NamesWorker c s lacks keeps =
      keeps _ ∙ get-with_port s _ ∙ get-spread "WORKER" s.extra_env _ lacks

  pub found-NamesWorker :
      (c : ClusterSettings) (settings : List WorkerSettings) (w : String) (s : WorkerSettings)
      → Names c settings
      → find (λ t. t.worker_id == w) settings ≡ some s
      → NamesWorker c s
  found-NamesWorker c [] w s names h = ground (arith, h)
  found-NamesWorker c (t ∷ settings) w s (name, names) h = elim (Bool-cases (t.worker_id == w)) [
    | inl here ↦ subst (NamesWorker c) (some-injective t s (rw here at h)) name
    | inr other ↦ found-NamesWorker c settings w s names (rw other at h)
  ]
