-- ===== src/Workers/Starting.antt =====
-- The processes that ClusterService starts for all of its clusters.
use boar_pack.Base.{
  ℕ, suc, ◌≤◌, String, ◌≡◌, refl, sym, ap, ◌∙◌, Bool, true, false, none, some, List, [], ◌∷◌, ◌++◌,
  text_eq, number_eq, if◌then◌else◌, ◌==◌, member, Distinct, arith, Bool-cases, inl, inr, ◌||◌,
  Option-cases, ==_refl, append-nil, append_assoc,
}
use boar_pack.Dict.{get, set, has, get-set, has-set}
use boar_pack.Workers.Cluster.{
  Env, ClusterSettings, WorkerSettings, Descriptor, Cluster, vars_of, run_worker,
}
use boar_pack.Workers.Clusters.{
  Registry, no_workers, add_cluster, Answer, run_workers, forked, run_answered, run_cluster,
  run_clusters, empty_registry, add_clusters,
}

AreBelow : List (ℕ × Descriptor) → ℕ → Type 0
AreBelow [] id = Unit
AreBelow ((i, d) ∷ m) id = (suc i ≤ id) × AreBelow m id

set-AreBelow :
    (id : ℕ) (d : Descriptor) (m : List (ℕ × Descriptor))
    → AreBelow m id
    → set id d m ≡ m ++ (id, d) ∷ []
unfolding set AreBelow
set-AreBelow id d [] h = refl
set-AreBelow id d ((i, e) ∷ m) (lower, h) =
    rw (set-AreBelow id d m h) (ground (arith, lower, number_eq.decides i id))

added_below :
    (id : ℕ) (d : Descriptor) (m : List (ℕ × Descriptor))
    → AreBelow m id
    → AreBelow (m ++ (id, d) ∷ []) (suc id)
unfolding AreBelow
added_below id d [] h = (omega arith, tt)
added_below id d ((i, e) ∷ m) (lower, h) = (omega (arith, lower), added_below id d m h)

module _ (text : ℕ → String) (base_port : ℕ) (on_worker_run : ℕ → WorkerSettings → Env → Env)
    (answer : ℕ → Answer) where
  run_workers-forked :
      (k : ℕ) (c : ClusterSettings) (settings : List WorkerSettings) (id : ℕ) (cl : Cluster)
      → AreBelow cl.workers id
      → run_workers text base_port on_worker_run k c settings id cl
        ≡ record cl { workers = cl.workers ++ forked text base_port on_worker_run k c settings id }
  unfolding run_workers run_worker
  run_workers-forked k c [] id cl h =
      ap (λ w. record cl { workers = w }) (sym (append-nil cl.workers))
  run_workers-forked k c (s ∷ settings) id cl h =
      let d : Descriptor = record {
        worker_id = s.worker_id;
        worker_vars = vars_of text base_port (on_worker_run k) c s;
      } in
      ap
        (λ w.
          run_workers text base_port on_worker_run k c settings (suc id)
            (record cl { workers = w }))
        (set-AreBelow id d cl.workers h)
      ∙ run_workers-forked k c settings (suc id)
          (record cl { workers = cl.workers ++ (id, d) ∷ [] }) (added_below id d cl.workers h)
      ∙ ap (λ w. record cl { workers = w })
          (append_assoc cl.workers ((id, d) ∷ [])
            (forked text base_port on_worker_run k c settings (suc id)))

  -- A cluster whose turn does not come.
  get-run_cluster :
      (j k : ℕ) (r : Registry)
      → (j == k) ≡ false
      → get k (run_cluster text base_port on_worker_run answer j r).clusters ≡ get k r.clusters
  unfolding run_cluster
  get-run_cluster j k r other = elim (Option-cases (answer j)) [
    | inl fails ↦ rw (fails, run_cluster) refl
    | inr (a, known) ↦
        rw (known, run_cluster)
          (elim (Option-cases (get j r.clusters)) [
            | inl missing ↦ rw (missing, run_answered) refl
            | inr (cl, there) ↦ rw (there, run_answered) (get-set j k _ r.clusters ∙ rw other refl)
          ])
  ]

  get-run_clusters :
      (order : List ℕ) (k : ℕ) (r : Registry)
      → member k order ≡ false
      → get k (run_clusters text base_port on_worker_run answer order r).clusters ≡ get k r.clusters
  unfolding run_clusters
  get-run_clusters [] k r h = refl
  get-run_clusters (j ∷ order) k r h =
      get-run_clusters order k (run_cluster text base_port on_worker_run answer j r)
        (ground (arith, h))
      ∙ get-run_cluster j k r (ground (arith, h))

  started_forked :
      (k : ℕ) (r : Registry) (c : ClusterSettings) (settings : List WorkerSettings)
      → answer k ≡ some (c, settings)
      → get k r.clusters ≡ some no_workers
      → get k (run_cluster text base_port on_worker_run answer k r).clusters
        ≡ some (record {
          workers = forked text base_port on_worker_run k c settings r.next_id;
          starting = [];
        })
  unfolding run_cluster AreBelow
  started_forked k r c settings known new =
      rw (known, run_cluster)
        (rw (new, run_answered)
          (get-set k k _ r.clusters
            ∙ rw (==_refl k) (ap some (run_workers-forked k c settings r.next_id no_workers tt))))

  run_clusters-forked :
      (order : List ℕ) (k : ℕ) (r : Registry) (c : ClusterSettings) (settings : List WorkerSettings)
      → Distinct order
      → member k order ≡ true
      → answer k ≡ some (c, settings)
      → get k r.clusters ≡ some no_workers
      → (id : ℕ) × (get k (run_clusters text base_port on_worker_run answer order r).clusters
          ≡ some (record {
            workers = forked text base_port on_worker_run k c settings id;
            starting = [];
          }))
  unfolding run_clusters
  run_clusters-forked [] k r c settings d h known new = ground (arith, h)
  run_clusters-forked (j ∷ order) k r c settings (first, d) h known new =
      elim (Bool-cases (j == k)) [
        | inl same ↦
            let e : j ≡ k = (number_eq.decides j k).0 same in
            (
              r.next_id,
              rw e (
                  get-run_clusters order k (run_cluster text base_port on_worker_run answer k r)
                    (ap (λ i. member i order) (sym e) ∙ first)
                  ∙ started_forked k r c settings known new),
            )
        | inr other ↦
            run_clusters-forked order k (run_cluster text base_port on_worker_run answer j r) c
              settings d (ground (arith, h, other)) known (get-run_cluster j k r other ∙ new)
      ]

joined :
    (a b : Bool)
    → (if a then some no_workers else (if b then some no_workers else none))
      ≡ (if a || b then some no_workers else none)
joined true b = refl
joined false b = refl

IsFresh : Registry → Type 0
IsFresh r =
    Distinct r.listeners
    × ((k : ℕ) → (has k r.clusters ≡ member k r.listeners))
    × ((k : ℕ) → get k r.clusters ≡ (if member k r.listeners then some no_workers else none))

appended_member : (k j : ℕ) (xs : List ℕ) → member k (xs ++ j ∷ []) ≡ (j == k || member k xs)
appended_member k j [] = refl
appended_member k j (x ∷ xs) = ground (arith, appended_member k j xs)

appended_Distinct :
    (j : ℕ) (xs : List ℕ) → member j xs ≡ false → Distinct xs → Distinct (xs ++ j ∷ [])
appended_Distinct j [] n d = (refl, tt)
appended_Distinct j (x ∷ xs) n (new, d) = (
  ground (arith, n, new, appended_member x j xs, number_eq.decides x j, number_eq.decides j x),
  appended_Distinct j xs (ground (arith, n)) d,
)

add_cluster-listeners :
    (k j : ℕ) (r : Registry)
    → IsFresh r
    → member k (add_cluster j r).listeners ≡ (j == k || member k r.listeners)
unfolding add_cluster IsFresh
add_cluster-listeners k j r (d, known, started) = elim (Bool-cases (has j r.clusters)) [
  | inl there ↦
      rw (there, add_cluster)
        (ground (arith, there, known j, number_eq.decides j k, ap (λ i. member i r.listeners) refl))
  | inr new ↦ rw (new, add_cluster) (appended_member k j r.listeners)
]

add_cluster-IsFresh : (j : ℕ) (r : Registry) → IsFresh r → IsFresh (add_cluster j r)
unfolding add_cluster IsFresh
add_cluster-IsFresh j r (d, known, started) = elim (Bool-cases (has j r.clusters)) [
  | inl there ↦ rw (there, add_cluster) (d, known, started)
  | inr new ↦
      rw (new, add_cluster)
        (
          appended_Distinct j r.listeners (sym (known j) ∙ new) d,
          λ k.
              has-set k j no_workers r.clusters
              ∙ ap (λ b. j == k || b) (known k)
              ∙ sym (appended_member k j r.listeners),
          λ k.
              get-set j k no_workers r.clusters
              ∙ ap (λ o. if j == k then some no_workers else o) (started k)
              ∙ joined (j == k) (member k r.listeners)
              ∙ ap (λ b. if b then some no_workers else none)
                  (sym (appended_member k j r.listeners)),
        )
]

add_clusters-listeners :
    (ks : List ℕ) (k : ℕ) (r : Registry)
    → IsFresh r
    → member k (add_clusters ks r).listeners ≡ (member k ks || member k r.listeners)
unfolding add_clusters
add_clusters-listeners [] k r h = refl
add_clusters-listeners (j ∷ ks) k r h =
    add_clusters-listeners ks k (add_cluster j r) (add_cluster-IsFresh j r h)
    ∙ ground (arith, add_cluster-listeners k j r h)

add_clusters-IsFresh : (ks : List ℕ) (r : Registry) → IsFresh r → IsFresh (add_clusters ks r)
unfolding add_clusters
add_clusters-IsFresh [] r h = h
add_clusters-IsFresh (j ∷ ks) r h =
    add_clusters-IsFresh ks (add_cluster j r) (add_cluster-IsFresh j r h)

empty_registry-IsFresh : (id : ℕ) → IsFresh (empty_registry id)
unfolding IsFresh get has
empty_registry-IsFresh id = (tt, λ k. refl, λ k. refl)

module _ (text : ℕ → String) (base_port : ℕ) (on_worker_run : ℕ → WorkerSettings → Env → Env)
    (answer : ℕ → Answer) where
  -- Of a cluster that was added, once or more often, there is one listener. If its settings arrive,
  -- and those of each cluster arrive once, it then has one process for each of its settings, in their
  -- order, with the variables of it, under consecutive identifiers, whether other clusters fail or
  -- not.
  pub run_clusters-add_clusters :
      (ks order : List ℕ) (k id : ℕ) (c : ClusterSettings) (settings : List WorkerSettings)
      → member k ks ≡ true
      → Distinct order
      → member k order ≡ true
      → answer k ≡ some (c, settings)
      → let r = add_clusters ks (empty_registry id) in
        Distinct r.listeners
        × (member k r.listeners ≡ true)
        × ((first : ℕ) × (get k (run_clusters text base_port on_worker_run answer order r).clusters
              ≡ some (record {
                workers = forked text base_port on_worker_run k c settings first;
                starting = [];
              })))
  unfolding IsFresh
  run_clusters-add_clusters ks order k id c settings added distinct arrives known =
      let fresh = add_clusters-IsFresh ks (empty_registry id) (empty_registry-IsFresh id) in
      let heard : member k (add_clusters ks (empty_registry id)).listeners ≡ true =
        add_clusters-listeners ks k (empty_registry id) (empty_registry-IsFresh id)
        ∙ ap (λ b. b || false) added in
      (
        fresh.0,
        heard,
        run_clusters-forked text base_port on_worker_run answer order k
            (add_clusters ks (empty_registry id)) c settings distinct arrives known
            (fresh.2 k ∙ ap (λ b. if b then some no_workers else none) heard),
      )
