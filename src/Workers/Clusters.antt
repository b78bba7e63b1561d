-- ===== src/Workers/Clusters.antt =====
-- `ClusterService` with all of its clusters: addCluster, runClusters and runCluster. A cluster is
-- named by a number, as the keys of a `Map` are told apart by identity.
use boar_pack.Base.{
  ℕ, suc, String, Option, none, some, List, [], ◌∷◌, ◌++◌, text_eq, number_eq, if◌then◌else◌,
}
use boar_pack.Dict.{get, set, has}
use boar_pack.Workers.Cluster.{
  Env, ClusterSettings, WorkerSettings, Descriptor, Cluster, vars_of, run_worker,
}

-- `next_id` is the identifier of the process that is forked next.
pub record Registry : Type 0 where
  pub clusters : List (ℕ × Cluster)
  pub listeners : List ℕ
  pub next_id : ℕ

abbrev pub no_workers : Cluster
no_workers = record { workers = []; starting = [] }

unfoldable pub add_cluster : ℕ → Registry → Registry
add_cluster k r =
    if has k r.clusters
    then r
    else record r { clusters = set k no_workers r.clusters; listeners = r.listeners ++ k ∷ [] }

-- What a cluster answers for its settings and those of its workers, or that it fails.
abbrev pub Answer : Type 0
Answer = Option (ClusterSettings × List WorkerSettings)

module _ (text : ℕ → String) (base_port : ℕ) (on_worker_run : ℕ → WorkerSettings → Env → Env) where
  -- `workersSettings.forEach`, in the cluster `k`.
  unfoldable pub run_workers : ℕ → ClusterSettings → List WorkerSettings → ℕ → Cluster → Cluster
  run_workers k c [] id cl = cl
  run_workers k c (s ∷ settings) id cl =
      run_workers k c settings (suc id) (run_worker text base_port (on_worker_run k) c s id cl)

  -- The processes of a cluster, one for each of the settings, under consecutive identifiers.
  abbrev pub forked : ℕ → ClusterSettings → List WorkerSettings → ℕ → List (ℕ × Descriptor)
  forked k c [] id = []
  forked k c (s ∷ settings) id =
      (
        id,
        record {
          worker_id = s.worker_id;
          worker_vars = vars_of text base_port (on_worker_run k) c s;
        },
      )
      ∷ forked k c settings (suc id)

abbrev pub after : List WorkerSettings → ℕ → ℕ
after [] id = id
after (s ∷ settings) id = after settings (suc id)

module _ (text : ℕ → String) (base_port : ℕ) (on_worker_run : ℕ → WorkerSettings → Env → Env)
    (answer : ℕ → Answer) where
  abbrev pub run_answered : ℕ → ClusterSettings × List WorkerSettings → Registry → Registry
  run_answered k a r = elim (get k r.clusters) [
    | none ↦ r
    | some cl ↦ record r {
      clusters = set k (run_workers text base_port on_worker_run k a.0 a.1 r.next_id cl) r.clusters;
      next_id = after a.1 r.next_id;
    }
  ]

  unfoldable pub run_cluster : ℕ → Registry → Registry
  run_cluster k r = elim (answer k) [ none ↦ r | some a ↦ run_answered k a r ]

  -- The clusters in the order in which their settings have arrived; one that fails stops no other.
  unfoldable pub run_clusters : List ℕ → Registry → Registry
  run_clusters [] r = r
  run_clusters (k ∷ order) r = run_clusters order (run_cluster k r)

abbrev pub empty_registry : ℕ → Registry
empty_registry id = record { clusters = []; listeners = []; next_id = id }

unfoldable pub add_clusters : List ℕ → Registry → Registry
add_clusters [] r = r
add_clusters (k ∷ ks) r = add_clusters ks (add_cluster k r)
