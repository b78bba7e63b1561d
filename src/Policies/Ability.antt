-- ===== src/Policies/Ability.antt =====
-- packages/users-backend/src/casl/casl-ability.factory.ts. The CASL library is a parameter, with
-- its documented meaning for a check against a type of subjects.
use boar_pack.Base.{
  String, ◌≡◌, ◌↔◌, Bool, true, false, not, ◌&&◌, ◌||◌, none, some, List, [], ◌∷◌, ◌++◌, ◌==◌, Eq,
  text_eq, if◌then◌else◌, arith, member,
}
use boar_pack.Dict.{get, set}
use boar_pack.Users.{User, admin, user}

pub data Action : Type 0 where
  manage create read update delete : Action

abbrev same_action : Action → Action → Bool
same_action manage manage = true
same_action create create = true
same_action read read = true
same_action update update = true
same_action delete delete = true
same_action _ _ = false

pub same_action_iff : (a b : Action) → (same_action a b ≡ true) ↔ (a ≡ b)
same_action_iff a b = ground arith

instance abbrev pub action_eq : Eq Action
action_eq = record { test = same_action; decides = same_action_iff }

-- `RawRule`; `partial` says that the rule names conditions or fields. A subject is a class, by its
-- name, or "all".
pub record Rule : Type 0 where
  pub action : Action
  pub subjects : List String
  pub inverted : Bool
  pub partial : Bool

-- A rule bears on a check against a whole type, unless it takes away a part only.
abbrev pub bears : Action → String → Rule → Bool
bears a s r =
    (r.action == a || r.action == manage)
    && (member s r.subjects || member "all" r.subjects)
    && not (r.inverted && r.partial)

-- The last rule that bears decides, and nothing is allowed without one.
abbrev pub decided : Action → String → Bool → List Rule → Bool
decided a s so_far [] = so_far
decided a s so_far (r ∷ rs) = decided a s (if bears a s r then not r.inverted else so_far) rs

-- `AbilityBuilder.build` and `Ability.can`.
pub record Casl : Type 1 where
  pub Ability : Type 0
  pub build : List Rule → Ability
  pub can : Ability → Action → String → Bool
  pub can_law :
      (rs : List Rule) (a : Action) (s : String) → can (build rs) a s ≡ decided a s false rs

-- What a permission stands for.
pub record Grant : Type 0 where
  pub action : Action
  pub subjects : List String

-- The static registries of the factory. A definer is asked for the rules that it adds; it adds them
-- before its first `await`, so the rules of two definers do not mix.
pub record Registry : Type 0 where
  pub permissions_to_actions : List (String × Grant)
  pub definers : List (User → List Rule)

unfoldable pub add_permission_to_action : String → Grant → Registry → Registry
add_permission_to_action permission grant g = record g {
  permissions_to_actions = set permission grant g.permissions_to_actions;
}

abbrev pub granting : Grant → Rule
granting g = record { action = g.action; subjects = g.subjects; inverted = false; partial = false }

abbrev pub manage_all : Rule
manage_all = granting (record { action = manage; subjects = "all" ∷ [] })

-- The loop over the permissions of a user: an unknown one is skipped.
unfoldable pub permission_rules : List (String × Grant) → List String → List Rule
permission_rules known [] = []
permission_rules known (p ∷ ps) =
    let rest = permission_rules known ps in
    elim (get p known) [ none ↦ rest | some g ↦ granting g ∷ rest ]

unfoldable pub role_rules : List (String × Grant) → User → List Rule
role_rules known u = elim u.role [
  | admin ↦ manage_all ∷ []
  | user ↦ permission_rules known u.permissions
]

abbrev pub defined_rules : List (User → List Rule) → User → List Rule
defined_rules [] u = []
defined_rules (d ∷ ds) u = d u ++ defined_rules ds u

module _ (casl : Casl) where
  unfoldable pub create_for_user : Registry → User → casl.Ability
  unfolding role_rules
  create_for_user g u =
      casl.build (role_rules g.permissions_to_actions u ++ defined_rules g.definers u)
