-- ===== src/Policies/Shown.antt =====
-- The switches of a user's permissions show what the server holds.
use boar_pack.Base.{
  ℕ, String, ◌≡◌, refl, sym, ap, ◌∙◌, Bool, true, false, not, ◌&&◌, ◌||◌, Option, none, some, List,
  [], ◌∷◌, text_eq, number_eq, ◌==◌, if◌then◌else◌, member, add, member-add, member-remove, arith,
  Bool-cases, inl, inr,
}
use mathlib.Core.Path.{subst}
use text.Mathlib.TextEquality.{eq_iff}
use boar_pack.Dict.{get, set, delete, get-set_same}
use boar_pack.Policies.Switches.{
  to_set, Request, Switches, toggled, toggle_permission, settled, Event, clicks, handled, answered,
  handle, answer, disabled_switch, is_granted, click, step, run,
}

-- Two sets have the same elements.
abbrev Same : List String → List String → Type 0
Same xs ys = (k : String) → member k xs ≡ member k ys

-- What a request on its way has to do with what the server holds.
abbrev Agrees : Request → Option Bool → List String → Type 0
Agrees r (some true) stored = Same r.sent stored
Agrees r _ stored = Same r.before stored

-- There is one request at most, which agrees with the server, and if there is none, what is shown is
-- what the server holds.
abbrev IsInStep : List (ℕ × Request) → List String → List String → Type 0
IsInStep [] shown stored = Same shown stored
IsInStep ((n, r) ∷ []) shown stored = Agrees r r.outcome stored
IsInStep ((n, r) ∷ more ∷ requests) shown stored = ⊥

abbrev pub is_idle : List (ℕ × Request) → Bool
is_idle [] = true
is_idle (r ∷ requests) = false

member-to_set :
    (k : String) (xs set : List String) → member k (to_set xs set) ≡ (member k xs || member k set)
member-to_set k [] set = refl
member-to_set k (x ∷ xs) set = member-to_set k xs (add x set) ∙ ground (arith, member-add x k set)

pub member-toggled :
    (k permission : String) (set : List String)
    → member k (toggled permission set)
      ≡ (if permission == k then not (member k set) else member k set)
member-toggled k permission set = elim (Bool-cases (member permission set)) [
  | inl there ↦ rw there (elim (Bool-cases (permission == k)) [
    | inl same ↦ rw same (
        member-remove permission k set
        ∙ rw same
            (sym (ap not (sym (ap (λ x. member x set) ((eq_iff permission k).0 same)) ∙ there))))
    | inr other ↦ rw other (member-remove permission k set ∙ rw other refl)
  ])
  | inr missing ↦ rw missing (elim (Bool-cases (permission == k)) [
    | inl same ↦ rw same (
        member-add permission k set
        ∙ rw same
            (sym (ap not (sym (ap (λ x. member x set) ((eq_iff permission k).0 same)) ∙ missing))))
    | inr other ↦ rw other (member-add permission k set ∙ rw other refl)
  ])
]

module _ (is_admin can_manage_all : Bool) where
  -- Each click comes when the request of the one before has been answered.
  abbrev pub waits : Event → Switches → Bool
  waits (clicks permission) s = is_idle s.requests
  waits _ s = true

  abbrev pub one_at_a_time : List Event → Switches → Bool
  one_at_a_time [] s = true
  one_at_a_time (e ∷ es) s = waits e s && one_at_a_time es (step is_admin can_manage_all e s)

  InStep : Switches → Type 0
  InStep s = IsInStep s.requests s.permissions_set s.stored

  click-InStep :
      (permission : String) (shown : List String) (loading : Bool) (requests : List (ℕ × Request))
      (made : ℕ) (stored : List String)
      → is_idle requests ≡ true
      → IsInStep requests shown stored
      → InStep (
          click is_admin can_manage_all permission (record {
            permissions_set = shown;
            loading = loading;
            requests = requests;
            clicks_made = made;
            stored = stored;
          }))
  unfolding InStep click toggle_permission set
  click-InStep permission shown loading [] made stored idle h =
      elim (Bool-cases (disabled_switch is_admin can_manage_all)) [
        | inl off ↦ rw (off, click) h
        | inr on ↦ rw (on, click) h
      ]
  click-InStep permission shown loading (r ∷ requests) made stored idle h = ground (arith, idle)

  handle-InStep :
      (n k : ℕ) (carries_out : Bool) (before sent : List String) (outcome : Option Bool)
      (shown : List String) (loading : Bool) (made : ℕ) (stored : List String)
      → (k == n) ≡ true
      → Agrees (record { before = before; sent = sent; outcome = outcome }) outcome stored
      → let r : Request = record { before = before; sent = sent; outcome = outcome } in
        InStep (
          handle n carries_out (some r) (record {
            permissions_set = shown;
            loading = loading;
            requests = (k, r) ∷ [];
            clicks_made = made;
            stored = stored;
          }))
  unfolding InStep set
  handle-InStep n k carries_out before sent (some done) shown loading made stored this h = h
  handle-InStep n k true before sent none shown loading made stored this h = rw this (λ j. refl)
  handle-InStep n k false before sent none shown loading made stored this h = rw this h

  answer-InStep :
      (n k : ℕ) (before sent : List String) (outcome : Option Bool) (shown : List String)
      (loading : Bool) (made : ℕ) (stored : List String)
      → (k == n) ≡ true
      → Agrees (record { before = before; sent = sent; outcome = outcome }) outcome stored
      → let r : Request = record { before = before; sent = sent; outcome = outcome } in
        InStep (
          answer n (some r) (record {
            permissions_set = shown;
            loading = loading;
            requests = (k, r) ∷ [];
            clicks_made = made;
            stored = stored;
          }))
  unfolding InStep delete settled
  answer-InStep n k before sent none shown loading made stored this h = h
  answer-InStep n k before sent (some true) shown loading made stored this h =
      rw this (λ j. member-to_set j sent [] ∙ ground (arith, h j))
  answer-InStep n k before sent (some false) shown loading made stored this h = rw this h

  step-InStep :
      (e : Event) (shown : List String) (loading : Bool) (requests : List (ℕ × Request)) (made : ℕ)
      (stored : List String)
      → let s : Switches = record {
        permissions_set = shown;
        loading = loading;
        requests = requests;
        clicks_made = made;
        stored = stored;
      } in
        waits e s ≡ true
        → IsInStep requests shown stored
        → InStep (step is_admin can_manage_all e s)
  unfolding InStep step get
  step-InStep (clicks permission) shown loading requests made stored w h =
      click-InStep permission shown loading requests made stored w h
  step-InStep (handled n b) shown loading [] made stored w h = h
  step-InStep (handled n b) shown loading ((k, r) ∷ []) made stored w h =
      elim (Bool-cases (k == n)) [
        | inl this ↦
            rw this (handle-InStep n k b r.before r.sent r.outcome shown loading made stored this h)
        | inr other ↦ rw other h
      ]
  step-InStep (handled n b) shown loading (r ∷ q ∷ requests) made stored w h = elim h [ ]
  step-InStep (answered n) shown loading [] made stored w h = h
  step-InStep (answered n) shown loading ((k, r) ∷ []) made stored w h =
      elim (Bool-cases (k == n)) [
        | inl this ↦
            rw this (answer-InStep n k r.before r.sent r.outcome shown loading made stored this h)
        | inr other ↦ rw other h
      ]
  step-InStep (answered n) shown loading (r ∷ q ∷ requests) made stored w h = elim h [ ]

  run-InStep :
      (es : List Event) (s : Switches)
      → one_at_a_time es s ≡ true
      → InStep s
      → InStep (run is_admin can_manage_all es s)
  unfolding run InStep
  run-InStep [] s w h = h
  run-InStep (e ∷ es) s w h = run-InStep es (step is_admin can_manage_all e s) (ground (arith, w)) (
      step-InStep e s.permissions_set s.loading s.requests s.clicks_made s.stored
        (ground (arith, w)) h)

  shown_now :
      (es : List Event) (s : Switches)
      → s.requests ≡ []
      → s.permissions_set ≡ to_set s.stored []
      → one_at_a_time es s ≡ true
      → (run is_admin can_manage_all es s).requests ≡ []
      → let now = run is_admin can_manage_all es s in Same now.permissions_set now.stored
  unfolding InStep
  shown_now es s idle same w waits =
      let now = run is_admin can_manage_all es s in
      let start : InStep s =
        subst (λ q. IsInStep q s.permissions_set s.stored) (sym idle)
          (λ j. ap (member j) same ∙ member-to_set j s.stored [] ∙ ground arith) in
      subst (λ q. IsInStep q now.permissions_set now.stored) waits (run-InStep es s w start)

  sent_by :
      (permission : String) (s : Switches)
      → disabled_switch is_admin can_manage_all ≡ false
      → get s.clicks_made (click is_admin can_manage_all permission s).requests
        ≡ some (record {
          before = s.permissions_set;
          sent = toggled permission s.permissions_set;
          outcome = none;
        })
  unfolding click toggle_permission
  sent_by permission s enabled = rw (enabled, click) (get-set_same s.clicks_made _ s.requests)

  -- Let the switches not be disabled, begin with what the server holds and no request on its way, and
  -- let each answer tell what the server has done. After any history in which each click waits for the
  -- answer to the one before, with no request on its way, each switch shows whether the server holds
  -- its permission or the user is an administrator; and the request of the next click has what the
  -- server holds, but for the permission that is clicked.
  pub run-is_granted :
      (es : List Event) (s : Switches) (k permission : String)
      → s.requests ≡ []
      → s.permissions_set ≡ to_set s.stored []
      → one_at_a_time es s ≡ true
      → (run is_admin can_manage_all es s).requests ≡ []
      → disabled_switch is_admin can_manage_all ≡ false
      → let now = run is_admin can_manage_all es s in
        (is_granted is_admin can_manage_all k now ≡ (is_admin || member k now.stored))
        × (r : Request) × (get now.clicks_made
              (click is_admin can_manage_all permission now).requests
            ≡ some r)
        × (member k r.sent
            ≡ (if permission == k then not (member k now.stored) else member k now.stored))
  unfolding is_granted
  run-is_granted es s k permission idle same w waits enabled =
      let now = run is_admin can_manage_all es s in
      let shown = shown_now es s idle same w waits in
      (
        ap (λ b. is_admin || b) (shown k),
        _,
        sent_by permission now enabled,
        member-toggled k permission now.permissions_set
            ∙ ap (λ b. if permission == k then not b else b) (shown k),
      )
