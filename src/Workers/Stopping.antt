-- ===== src/Workers/Stopping.antt =====
-- What becomes of a worker that cluster.service.ts is asked to stop.
use boar_pack.Base.{
  All, ℕ, String, ◌≡◌, refl, ap, ◌∙◌, true, false, some, List, [], ◌∷◌, text_eq, number_eq, ◌==◌,
  find, any, member, arith, Bool-cases, Option-cases, inl, inr, ◌⊎◌, ==_refl,
}
use boar_pack.Dict.{get}
use boar_pack.Workers.Cluster.{
  Env, ClusterSettings, WorkerSettings, Descriptor, Cluster, take_out, vars_of, run_worker,
  finish_start, worker_exits, is_called, set_worker_state, Event, sets, exits, goes_on, step, run,
}
use boar_pack.Workers.Names.{Names, NamesWorkers, found-NamesWorker}
use boar_pack.Workers.Steps.{
  is_running, any-set, none-set, member-take_out, set_worker_state-down, member-apart, IsStopped,
  IsNamed, named-set, asks_for, IsDown, called_own, set_worker_state-IsDown, worker_exits-IsDown,
  find-satisfies,
}

module _ (text : ℕ → String) (base_port : ℕ) (on_worker_run : WorkerSettings → Env → Env) where
  start_runs :
      (c : ClusterSettings) (settings : List WorkerSettings) (s : WorkerSettings) (w : String)
      (id : ℕ) (cl : Cluster)
      → member w cl.starting ≡ true
      → find (λ t. t.worker_id == w) settings ≡ some s
      → get "WORKER" (vars_of text base_port on_worker_run c s) ≡ some w
      → is_running w (finish_start text base_port on_worker_run c settings w id cl) ≡ true
  unfolding finish_start run_worker
  start_runs c settings s w id cl due known named =
      let running =
        any-set (is_called w) id
          (record {
            worker_id = s.worker_id;
            worker_vars = vars_of text base_port on_worker_run c s;
          })
          cl.workers (rw (named, is_called) (==_refl w)) in
      rw (due, known) running

  -- If a worker is down and about to be restarted, a request to stop it does not keep it down: once
  -- the restart goes on, with settings whose variables name the worker, it runs.
  pub restart_outlives_stop :
      (c : ClusterSettings) (settings : List WorkerSettings) (s : WorkerSettings) (w : String)
      (id : ℕ) (cl : Cluster)
      → is_running w cl ≡ false
      → member w cl.starting ≡ true
      → find (λ t. t.worker_id == w) settings ≡ some s
      → get "WORKER" (vars_of text base_port on_worker_run c s) ≡ some w
      → is_running w (
          finish_start text base_port on_worker_run c settings w id (set_worker_state w false cl).0)
        ≡ true
  restart_outlives_stop c settings s w id cl down due known named =
      ap (λ x. is_running w (finish_start text base_port on_worker_run c settings w id x))
        (set_worker_state-down w false cl down)
      ∙ start_runs c settings s w id cl due known named

  finish_start-workers :
      (c : ClusterSettings) (settings : List WorkerSettings) (w : String) (id : ℕ) (cl : Cluster)
      → (member w cl.starting ≡ false
          × (finish_start text base_port on_worker_run c settings w id cl ≡ cl))
        ⊎ (((member w cl.starting ≡ true)
              × (finish_start text base_port on_worker_run c settings w id cl
                  ≡ record cl { starting = take_out w cl.starting }))
            ⊎ ((s : WorkerSettings) × (member w cl.starting ≡ true)
                × (find (λ t. t.worker_id == w) settings ≡ some s)
                × (finish_start text base_port on_worker_run c settings w id cl
                    ≡ run_worker text base_port on_worker_run c s id
                        (record cl { starting = take_out w cl.starting }))))
  unfolding finish_start
  finish_start-workers c settings w id cl = elim (Bool-cases (member w cl.starting)) [
    | inl due ↦ elim (Option-cases (find (λ s. s.worker_id == w) settings)) [
      | inl unknown ↦ inr (inl (due, rw (due, unknown) refl))
      | inr (s, known) ↦ inr (inr (s, due, known, rw (due, known) refl))
    ]
    | inr idle ↦ inl (idle, rw idle refl)
  ]

  finish_start-IsDown :
      (c : ClusterSettings) (settings : List WorkerSettings) (v w : String) (id : ℕ) (cl : Cluster)
      → Names text base_port on_worker_run c settings
      → IsDown w cl
      → IsDown w (finish_start text base_port on_worker_run c settings v id cl)
  unfolding IsDown run_worker
  finish_start-IsDown c settings v w id cl names (named, (down, idle)) =
      elim (finish_start-workers c settings v id cl) [
        | inl (waits, e) ↦ rw e (named, (down, idle))
        | inr (inl (due, e)) ↦ rw e (named, (down, member-take_out w v cl.starting idle))
        | inr (inr (s, due, known, e)) ↦
            (let is = find-satisfies (λ t. t.worker_id) v settings s known in
              let name =
                found-NamesWorker text base_port on_worker_run c settings v s names known in
              let d : Descriptor = record {
                worker_id = s.worker_id;
                worker_vars = vars_of text base_port on_worker_run c s;
              } in
              let apart = member-apart v w s.worker_id cl.starting due idle is in
              rw e (
                named-set id d cl.workers name named,
                (
                  none-set (is_called w) id d cl.workers (called_own w id d name ∙ apart) down,
                  member-take_out w v cl.starting idle,
                ),
              ))
      ]

  run-IsDown :
      (w : String) (es : List Event) (cl : Cluster)
      → All (NamesWorkers text base_port on_worker_run) es
      → any (asks_for w) es ≡ false
      → IsDown w cl
      → IsDown w (run text base_port on_worker_run es cl)
  unfolding run step
  run-IsDown w [] cl names quiet h = h
  run-IsDown w (sets v state ∷ es) cl (name, names) quiet h =
      run-IsDown w es (set_worker_state v state cl).0 names (ground (arith, quiet))
        (set_worker_state-IsDown w v state cl (ground (arith, quiet)) h)
  run-IsDown w (exits id signal ∷ es) cl (name, names) quiet h =
      run-IsDown w es (worker_exits id signal cl) names quiet (worker_exits-IsDown w id signal cl h)
  run-IsDown w (goes_on c settings v id ∷ es) cl (name, names) quiet h =
      run-IsDown w es (finish_start text base_port on_worker_run c settings v id cl) names quiet
        (finish_start-IsDown c settings v w id cl name h)

  -- A worker that does not run and is not about to stays down, whatever else is called and whatever
  -- exits, until it is asked for, if the variables of each process that runs at first name its worker,
  -- and so do those that a start would give to each worker of the settings that it meets.
  pub run-IsStopped :
      (w : String) (es : List Event) (cl : Cluster)
      → All (NamesWorkers text base_port on_worker_run) es
      → any (asks_for w) es ≡ false
      → IsNamed cl
      → IsStopped w cl
      → IsStopped w (run text base_port on_worker_run es cl)
  unfolding IsDown
  run-IsStopped w es cl names quiet named stopped =
      (run-IsDown w es cl names quiet (named, stopped)).1
