-- ===== src/Policies/Switches.antt =====
-- The switches of a user's permissions: packages/users-frontend/src/components/Users/
-- PermissionsList.tsx, with the permissions that the server holds. Several requests may be on their
-- way; the server may carry them out, and their answers arrive, in any order.
use boar_pack.Base.{
  ℕ, suc, String, Bool, true, false, not, ◌||◌, Option, none, some, List, [], ◌∷◌, text_eq,
  number_eq, if◌then◌else◌, member, add, remove,
}
use boar_pack.Dict.{get, set, delete}

-- `new Set(list)`.
abbrev pub to_set : List String → List String → List String
to_set [] set = set
to_set (x ∷ xs) set = to_set xs (add x set)

-- A request: the set that a failure brings back, the one that is sent, and what the server has done,
-- once it has: `true` if it has carried it out.
pub record Request : Type 0 where
  pub before : List String
  pub sent : List String
  pub outcome : Option Bool

-- `permissionsSet` and `loading`, the requests on their way by the numbers of their clicks, and what
-- the server has stored.
pub record Switches : Type 0 where
  pub permissions_set : List String
  pub loading : Bool
  pub requests : List (ℕ × Request)
  pub clicks_made : ℕ
  pub stored : List String

abbrev pub toggled : String → List String → List String
toggled permission set = if member permission set then remove permission set else add permission set

unfoldable pub toggle_permission : String → Switches → Switches
toggle_permission permission s = record s {
  permissions_set = toggled permission s.permissions_set;
  loading = true;
  requests =
      set s.clicks_made
        (record {
          before = s.permissions_set;
          sent = toggled permission s.permissions_set;
          outcome = none;
        })
        s.requests;
  clicks_made = suc s.clicks_made;
}

-- The ends of the promise: its answer is the user with the permissions that were sent, and an error
-- brings back the set that the click had found.
unfoldable pub settled : Request → Bool → Switches → Switches
settled r carried_out s = record s {
  permissions_set = if carried_out then to_set r.sent [] else r.before;
  loading = false;
}

-- What happens: a click; the server carries out a request, or refuses it, and the answer arrives.
pub data Event : Type 0 where
  clicks : (permission : String) → Event
  handled : (n : ℕ) (carries_out : Bool) → Event
  answered : (n : ℕ) → Event

abbrev pub stored_after : Bool → List String → List String → List String
stored_after carries_out sent stored = if carries_out then sent else stored

abbrev pub handle : ℕ → Bool → Option Request → Switches → Switches
handle n carries_out none s = s
handle n carries_out (some r) s = elim r.outcome [
  | some done ↦ s
  | none ↦ record s {
    requests = set n (record r { outcome = some carries_out }) s.requests;
    stored = stored_after carries_out r.sent s.stored;
  }
]

abbrev pub answer : ℕ → Option Request → Switches → Switches
answer n none s = s
answer n (some r) s = elim r.outcome [
  | some done ↦ settled r done (record s { requests = delete n s.requests })
  | none ↦ s
]

module _ (is_admin can_manage_all : Bool) where
  abbrev pub disabled_switch : Bool
  disabled_switch = is_admin || not can_manage_all

  unfoldable pub is_granted : String → Switches → Bool
  is_granted permission s = is_admin || member permission s.permissions_set

  -- A click on a switch.
  unfoldable pub click : String → Switches → Switches
  click permission s = if disabled_switch then s else toggle_permission permission s

  unfoldable pub step : Event → Switches → Switches
  step (clicks permission) s = click permission s
  step (handled n carries_out) s = handle n carries_out (get n s.requests) s
  step (answered n) s = answer n (get n s.requests) s

  unfoldable pub run : List Event → Switches → Switches
  run [] s = s
  run (e ∷ es) s = run es (step e s)
