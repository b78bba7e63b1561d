-- ===== src/Workers/Cluster.antt =====
-- `ClusterService`, for one of its clusters. What Node's cluster module does, a fork or an exit, is
-- an event. `startWorker` and a restart with a delay wait before they fork: in between the worker
-- is `starting`.
use boar_pack.Base.{
  ℕ, String, ◌+◌, Bool, false, Option, none, some, List, [], ◌∷◌, ◌++◌, text_eq, number_eq,
  if◌then◌else◌, ◌==◌, find, member, truthy_number,
}
use boar_pack.Dict.{get, set, delete}

abbrev pub Env : Type 0
Env = List (String × String)

pub record ClusterSettings : Type 0 where
  pub app_role : String

pub record WorkerSettings : Type 0 where
  pub worker_id : String
  pub worker_name : Option String
  pub port_increment : Option ℕ
  pub port : Option ℕ
  pub extra_env : Env

-- A process, and the settings' identifier that its exit handler keeps.
pub record Descriptor : Type 0 where
  pub worker_id : String
  pub worker_vars : Env

pub record Cluster : Type 0 where
  pub workers : List (ℕ × Descriptor)
  pub starting : List String

-- `sigterm` stands for every end of a process but `SIGKILL`, one without a signal included.
pub data Signal : Type 0 where
  sigkill sigterm : Signal

abbrev pub name_or_id : WorkerSettings → String
name_or_id s = elim s.worker_name [
  | some n ↦ if n == "" then s.worker_id else n
  | none ↦ s.worker_id
]

-- `{ ...base, ...extra }`
abbrev pub spread : Env → Env → Env
spread [] base = base
spread ((k, v) ∷ extra) base = spread extra (set k v base)

-- The first element that is equal is taken out.
abbrev pub take_out : String → List String → List String
take_out a [] = []
take_out a (x ∷ xs) = if x == a then xs else x ∷ take_out a xs

-- `text` is `String` on numbers, `base_port` the configured port, and `on_worker_run` the cluster's
-- hook, which may change the variables.
module _ (text : ℕ → String) (base_port : ℕ) (on_worker_run : WorkerSettings → Env → Env) where
  abbrev pub with_port : WorkerSettings → Env → Env
  with_port s vars =
      if truthy_number s.port
      then elim s.port [ some p ↦ set "PORT" (text p) vars | none ↦ vars ]
      else elim s.port_increment [ some i ↦ set "PORT" (text (base_port + i)) vars | none ↦ vars ]

  abbrev pub vars_of : ClusterSettings → WorkerSettings → Env
  vars_of c s = on_worker_run s (
      with_port s (
        spread s.extra_env (
          ("APP_ROLE", c.app_role) ∷ ("WORKER", s.worker_id) ∷ ("WORKER_NAME", name_or_id s) ∷ [])))

  -- `runWorker`; `id` is that of the process that is forked.
  unfoldable pub run_worker : ClusterSettings → WorkerSettings → ℕ → Cluster → Cluster
  run_worker c s id cl = record cl {
    workers = set id (record { worker_id = s.worker_id; worker_vars = vars_of c s }) cl.workers;
  }

  -- The rest of `startWorker`, with the settings that it was waiting for. It goes on only if it was
  -- begun.
  unfoldable pub finish_start :
      ClusterSettings → List WorkerSettings → String → ℕ → Cluster → Cluster
  finish_start c settings worker_id id cl =
      let begun = record cl { starting = take_out worker_id cl.starting } in
      let started : Cluster = elim (find (λ s. s.worker_id == worker_id) settings) [
        | some s ↦ run_worker c s id begun
        | none ↦ begun
      ] in
      if member worker_id cl.starting then started else cl

-- The handler of an exit.
unfoldable pub worker_exits : ℕ → Signal → Cluster → Cluster
worker_exits id signal cl = elim (get id cl.workers) [
  | none ↦ cl
  | some d ↦ record {
    workers = delete id cl.workers;
    starting = elim signal [ sigkill ↦ cl.starting | sigterm ↦ cl.starting ++ d.worker_id ∷ [] ];
  }
]

abbrev pub is_called : String → ℕ × Descriptor → Bool
is_called worker_id e = elim (get "WORKER" e.1.worker_vars) [
  | some w ↦ w == worker_id
  | none ↦ false
]

-- `setWorkerState`, with the signals that it sends.
unfoldable pub set_worker_state : String → Bool → Cluster → Cluster × List (ℕ × Signal)
set_worker_state worker_id state cl = elim (find (is_called worker_id) cl.workers) [
  | none ↦ (if state then record cl { starting = cl.starting ++ worker_id ∷ [] } else cl, [])
  | some e ↦ (cl, (e.0, if state then sigterm else sigkill) ∷ [])
]

-- A call of `setWorkerState`, an exit, and the end of a wait of `startWorker`.
pub data Event : Type 0 where
  sets : (worker_id : String) → (state : Bool) → Event
  exits : (id : ℕ) → (signal : Signal) → Event
  goes_on :
      (settings : ClusterSettings)
      → (workers_settings : List WorkerSettings) → (worker_id : String) → (id : ℕ) → Event

module _ (text : ℕ → String) (base_port : ℕ) (on_worker_run : WorkerSettings → Env → Env) where
  unfoldable pub step : Event → Cluster → Cluster
  step (sets w state) cl = (set_worker_state w state cl).0
  step (exits id signal) cl = worker_exits id signal cl
  step (goes_on c settings w id) cl = finish_start text base_port on_worker_run c settings w id cl

  unfoldable pub run : List Event → Cluster → Cluster
  run [] cl = cl
  run (e ∷ es) cl = run es (step e cl)
