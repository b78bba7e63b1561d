-- ===== src/Imports/Reachable.antt =====
-- The states that the modal reaches, by steps of the user and of the server.
use boar_pack.Base.{
  ◌≡◌, refl, Bool, true, false, not, ◌&&◌, ◌||◌, Option, none, some, List, [], ◌∷◌, arith, is_some,
}
use boar_pack.Imports.Modal.{
  Tab, errors_tab, results_tab, conflicts_tab, is_empty, Row, Changes, Response, Failure, Modal,
  initial, has_conflicts, has_none, responded, on_cancel, handle_commit_click, on_response,
  on_failure, failed, is_disabled, is_commit_disabled, is_400, ServerError,
}

module _ {V : Type 0} where
  -- A click reaches a button that is neither disabled nor loading, and a tab that is not disabled.
  -- A request is answered at some time, also after the modal was closed.
  pub data Step : Modal V → Modal V → Type 0 where
    commits :
        (m : Modal V) (changes : Changes V)
        → is_commit_disabled changes m ≡ false
        → m.is_loading ≡ false
        → Step m (handle_commit_click changes m).0
    responds : (m : Modal V) (res : Response V) → m.is_loading ≡ true → Step m (on_response res m)
    fails : (m : Modal V) (f : Failure V) → m.is_loading ≡ true → Step m (on_failure f m)
    cancels : (m : Modal V) → Step m (on_cancel m)
    switches :
        (m : Modal V) (changes : Changes V) (tab : Tab)
        → is_disabled changes m tab ≡ false
        → Step m (record m { active_tab = tab })
    resolves : (m : Modal V) (rows : List (Row V)) → Step m (record m { resolved_data = rows })

  pub data Reachable : Modal V → Type 0 where
    starts : Reachable initial
    steps : {m n : Modal V} → Reachable m → Step m n → Reachable n

  -- The tabs of the server's answers are open only when they have something to show.
  abbrev pub fills : Tab → List ServerError → Option (Response V) → Bool
  fills errors_tab errors response = not (is_empty errors)
  fills results_tab errors response = is_some response && not (responded has_conflicts response)
  fills conflicts_tab errors response = is_some response && not (responded has_none response)
  fills _ errors response = true

  abbrev pub IsConsistent : Modal V → Type 0
  IsConsistent m =
      (fills m.active_tab m.server_errors m.import_response ≡ true)
      × ((m.is_loading && not (is_empty m.server_errors)) ≡ false)

  kept-fills :
      (tab : Tab) (errors : List ServerError) (response : Option (Response V))
      → fills tab errors response ≡ true
      → is_empty errors ≡ true
      → fills tab [] response ≡ true
  kept-fills tab errors response a e = ground (arith, a, e)

  kept_by_failure :
      (b : Bool) (errors : Option (List ServerError)) (m : Modal V)
      → m.is_loading ≡ true
      → IsConsistent m
      → IsConsistent (failed b errors m)
  kept_by_failure true (some []) m h (a, b) =
      (kept-fills m.active_tab m.server_errors m.import_response a (ground (arith, h, b)), refl)
  kept_by_failure true (some (e ∷ errors)) m h (a, b) = (refl, refl)
  kept_by_failure true none m h (a, b) = (a, refl)
  kept_by_failure false errors m h (a, b) = (a, refl)

  kept_invariant : {m n : Modal V} → Step m n → IsConsistent m → IsConsistent n
  unfolding handle_commit_click on_response on_failure on_cancel is_disabled is_commit_disabled
  kept_invariant (commits m changes h k) (a, b) = (ground (arith, h, a), refl)
  kept_invariant (responds m res h) (a, b) = (ground (arith, h), refl)
  kept_invariant (fails m f h) (a, b) =
      kept_by_failure (is_400 f.status || is_400 f.body_status) f.errors m h (a, b)
  kept_invariant (cancels m) (a, b) = (refl, ground arith)
  kept_invariant (switches m changes tab h) (a, b) = (ground (arith, h), b)
  kept_invariant (resolves m rows) (a, b) = (a, b)

  -- In every state that is reached the open tab of errors, of results or of conflicts is one that
  -- may be chosen, and while a request is on its way no errors are shown.
  pub Reachable-IsConsistent : (m : Modal V) → Reachable m → IsConsistent m
  Reachable-IsConsistent m starts = (refl, refl)
  Reachable-IsConsistent m (steps before step) =
      kept_invariant step (Reachable-IsConsistent _ before)
