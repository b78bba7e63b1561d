-- ===== src/EventLogs/Saved.antt =====
-- The logs that are handed to the repository against those that were logged.
use boar_pack.Base.{◌≡◌, refl, sym, ap, ◌∙◌, List, [], ◌∷◌, ◌++◌, append-nil, append_assoc}
use boar_pack.EventLogs.Store.{
  Row, Event, pushes_audit, operates, applies, ten_seconds, step, run, operational, application,
  system_row, operational_log, application_log, save_accumulated_logs,
}

-- What an event logs.
abbrev pub logged_by : Event → List Row
logged_by (pushes_audit row) = row ∷ []
logged_by (operates e) = system_row operational e ∷ []
logged_by (applies e) = system_row application e ∷ []
logged_by ten_seconds = []

abbrev pub concat {ℓ} : {A : Type ℓ} → List (List A) → List A
concat [] = []
concat (xs ∷ rest) = xs ++ concat rest

abbrev pub logged_in : List Event → List Row
logged_in [] = []
logged_in (e ∷ es) = logged_by e ++ logged_in es

concat-append {ℓ} :
    {A : Type ℓ} (xs ys : List (List A)) → concat (xs ++ ys) ≡ concat xs ++ concat ys
concat-append [] ys = refl
concat-append (x ∷ xs) ys =
    ap (λ z. x ++ z) (concat-append xs ys) ∙ sym (append_assoc x (concat xs) (concat ys))

step_keeps :
    (e : Event) (store : List Row)
    → concat (step e store).1 ++ (step e store).0 ≡ store ++ logged_by e
unfolding step operational_log application_log save_accumulated_logs
step_keeps (pushes_audit row) store = refl
step_keeps (operates e) store = refl
step_keeps (applies e) store = refl
step_keeps ten_seconds [] = refl
step_keeps ten_seconds (r ∷ store) = append-nil ((r ∷ store) ++ [])

-- Over any history, the batches that were handed to the repository and then what waits are what waited
-- before and then what was logged, each log once and in its order.
pub run-logged :
    (es : List Event) (store : List Row)
    → concat (run es store).1 ++ (run es store).0 ≡ store ++ logged_in es
unfolding run
run-logged [] store = sym (append-nil store)
run-logged (e ∷ es) store =
    let (store', batches) = step e store in
    let (store'', later) = run es store' in
    ap (λ x. x ++ store'') (concat-append batches later)
    ∙ append_assoc (concat batches) (concat later) store''
    ∙ ap (λ x. concat batches ++ x) (run-logged es store')
    ∙ sym (append_assoc (concat batches) store' (logged_in es))
    ∙ ap (λ x. x ++ logged_in es) (step_keeps e store)
    ∙ append_assoc store (logged_by e) (logged_in es)
