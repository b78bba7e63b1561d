-- ===== src/Workers/Tests.antt =====
-- A worker that dies and is asked to stop, at concrete inputs.
use boar_pack.Base.{
  All, List, if◌then◌else◌, ◌==◌, member, Distinct, ◌≤◌, not, truthy_text, ◌&&◌, ℕ, String, ◌≡◌,
  refl, true, false, none, some, [], ◌∷◌, number_eq, text_eq,
}
use boar_pack.Dict.{has, get, set}
use boar_pack.Workers.Cluster.{
  Event, goes_on, Env, ClusterSettings, WorkerSettings, Cluster, sigterm, finish_start,
  set_worker_state, sets, exits, run,
}
use boar_pack.Workers.Clusters.{
  Registry, Answer, add_clusters, empty_registry, run_clusters, forked,
}
use boar_pack.Workers.Starting.{run_clusters-add_clusters}
use boar_pack.Workers.Config.{
  Config, config, digits_from, parse_int, Variables, whole, config-bounds,
}
use boar_pack.Workers.Names.{NamesWorkers, vars_of-NamesWorker}
use boar_pack.Workers.Steps.{is_running, IsStopped}
use boar_pack.Workers.Stopping.{restart_outlives_stop, run-IsStopped}

abbrev settings : ClusterSettings
settings = record { app_role = "worker" }

abbrev quotes : WorkerSettings
quotes = record {
  worker_id = "quotes";
  worker_name = none;
  port_increment = some 1;
  port = none;
  extra_env = [];
}

abbrev fix : WorkerSettings
fix = record {
  worker_id = "fix";
  worker_name = some "FIX";
  port_increment = none;
  port = some 4000;
  extra_env = ("LEVEL", "debug") ∷ [];
}

abbrev text : ℕ → String
text n = "3001"

abbrev no_hook : WorkerSettings → Env → Env
no_hook s vars = vars

-- The worker has died, and its restart is due.
abbrev dead : Cluster
dead = record { workers = []; starting = "quotes" ∷ [] }

runs_again :
    is_running "quotes" (
      finish_start text 3000 no_hook settings
        (quotes ∷ [])
        "quotes"
        8
        (set_worker_state "quotes" false dead).0)
    ≡ true
unfolding get set
runs_again =
    restart_outlives_stop text 3000 no_hook settings (quotes ∷ []) quotes "quotes" 8 dead refl refl
      refl refl

abbrev empty : Cluster
empty = record { workers = []; starting = [] }

-- Another worker is started, exits, and is started again, with variables that name it.
abbrev other_starts : List Event
other_starts =
    sets "fix" true
    ∷ goes_on settings (quotes ∷ fix ∷ []) "fix" 3
    ∷ exits 3 sigterm
    ∷ goes_on settings (quotes ∷ fix ∷ []) "fix" 4
    ∷ []

fix_named : All (NamesWorkers text 3000 no_hook) other_starts
unfolding has
fix_named =
    let own = vars_of-NamesWorker text 3000 no_hook settings quotes refl (λ vars. refl) in
    let other = vars_of-NamesWorker text 3000 no_hook settings fix refl (λ vars. refl) in
    (tt, ((own, (other, tt)), (tt, ((own, (other, tt)), tt))))

run-IsStopped_example : IsStopped "quotes" (run text 3000 no_hook other_starts empty)
unfolding get
run-IsStopped_example =
    run-IsStopped text 3000 no_hook "quotes" other_starts empty fix_named refl (λ id. tt)
      (refl, refl)

abbrev variables : Variables
variables = record { port = some "3100"; worker = some "quotes"; disable_cluster = none }

abbrev read_variables : Config
read_variables = record { port = whole 3100; worker = some "quotes"; disable_cluster = false }

quotes_port :
    (read_variables.port ≡ whole 3100)
    × (1 ≤ 3100)
    × (3100 ≤ 65535)
    × ((true && not (truthy_text read_variables.worker)) ≡ false)
    × (read_variables.disable_cluster ≡ false)
unfolding config parse_int digits_from
quotes_port = config-bounds (λ s. s) true variables read_variables refl refl

-- The first cluster answers, and the second fails.
abbrev answers : ℕ → Answer
answers k = if k == 1 then some (settings, quotes ∷ quotes ∷ []) else none

abbrev hooks : ℕ → WorkerSettings → Env → Env
hooks k = no_hook

abbrev two_added : Registry
two_added = add_clusters (1 ∷ 2 ∷ 1 ∷ []) (empty_registry 5)

run_clusters-add_clusters_example :
    Distinct two_added.listeners
    × (member 1 two_added.listeners ≡ true)
    × ((first : ℕ) × (get 1 (run_clusters text 3000 hooks answers (2 ∷ 1 ∷ []) two_added).clusters
          ≡ some (record {
            workers = forked text 3000 hooks 1 settings (quotes ∷ quotes ∷ []) first;
            starting = [];
          })))
run_clusters-add_clusters_example =
    run_clusters-add_clusters text 3000 hooks answers (1 ∷ 2 ∷ 1 ∷ []) (2 ∷ 1 ∷ []) 1 5 settings
      (quotes ∷ quotes ∷ []) refl (refl, (refl, tt)) refl refl
