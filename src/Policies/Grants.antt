-- ===== src/Policies/Grants.antt =====
-- What the ability of a user allows.
use boar_pack.Base.{
  String, ◌≡◌, refl, ◌∙◌, Bool, true, false, not, ◌||◌, none, some, List, [], ◌∷◌, ◌++◌, text_eq,
  if◌then◌else◌, arith, any, all, Option-cases, inl, inr,
}
use text.Mathlib.TextEquality.{eq_iff}
use boar_pack.Dict.{get}
use boar_pack.Users.{User, admin, user}
use boar_pack.Policies.Ability.{
  Action, manage, same_action_iff, action_eq, Rule, bears, decided, Casl, Grant, Registry, granting,
  permission_rules, role_rules, defined_rules, create_for_user,
}

-- The rules take nothing away.
abbrev pub only_grants : List Rule → Bool
only_grants = all (λ r. not r.inverted)

decided-only_grants :
    (a : Action) (s : String) (b : Bool) (rs : List Rule)
    → only_grants rs ≡ true
    → decided a s b rs ≡ (b || any (bears a s) rs)
decided-only_grants a s b [] h = ground arith
decided-only_grants a s b (r ∷ rs) h =
    ground (arith, decided-only_grants a s (if bears a s r then not r.inverted else b) rs)

decided-append :
    (a : Action) (s : String) (b : Bool) (rs qs : List Rule)
    → decided a s b (rs ++ qs) ≡ decided a s (decided a s b rs) qs
decided-append a s b [] qs = refl
decided-append a s b (r ∷ rs) qs =
    decided-append a s (if bears a s r then not r.inverted else b) rs qs

only_grants-permission_rules :
    (known : List (String × Grant)) (ps : List String)
    → only_grants (permission_rules known ps) ≡ true
unfolding permission_rules
only_grants-permission_rules known [] = refl
only_grants-permission_rules known (p ∷ ps) = elim (Option-cases (get p known)) [
  | inl e ↦ rw (e, permission_rules) (only_grants-permission_rules known ps)
  | inr (g, e) ↦ rw (e, permission_rules) (only_grants-permission_rules known ps)
]

-- The permission is known, and what it stands for covers the check.
abbrev pub grants : List (String × Grant) → Action → String → String → Bool
grants known a s p = elim (get p known) [ none ↦ false | some g ↦ bears a s (granting g) ]

any-permission_rules :
    (known : List (String × Grant)) (a : Action) (s : String) (ps : List String)
    → any (bears a s) (permission_rules known ps) ≡ any (grants known a s) ps
unfolding permission_rules
any-permission_rules known a s [] = refl
any-permission_rules known a s (p ∷ ps) = ground (arith, any-permission_rules known a s ps)

decided_user :
    (known : List (String × Grant)) (ps : List String) (a : Action) (s : String) (qs : List Rule)
    → only_grants qs ≡ true
    → decided a s false (permission_rules known ps ++ qs)
      ≡ (any (grants known a s) ps || any (bears a s) qs)
decided_user known ps a s qs clean =
    decided-append a s false (permission_rules known ps) qs
    ∙ decided-only_grants a s _ qs clean
    ∙ rw
        (
          decided-only_grants a s false (permission_rules known ps)
              (only_grants-permission_rules known ps),
          any-permission_rules known a s ps,
        )
        refl

role_rules_user :
    (known : List (String × Grant)) (u : User)
    → u.role ≡ user
    → role_rules known u ≡ permission_rules known u.permissions
unfolding role_rules
role_rules_user known u role = ground (arith, role)

module _ (casl : Casl) where
  -- A user who is no administrator may do what one of the permissions stands for or what the
  -- application's definers grant, and nothing else, where the definers take nothing away. So an
  -- unknown permission grants nothing.
  pub create_for_user-user_can :
      (g : Registry) (u : User) (a : Action) (s : String)
      → u.role ≡ user
      → only_grants (defined_rules g.definers u) ≡ true
      → casl.can (create_for_user casl g u) a s ≡ (
          any (grants g.permissions_to_actions a s) u.permissions
          || any (bears a s) (defined_rules g.definers u))
  unfolding create_for_user
  create_for_user-user_can g u a s role clean =
      casl.can_law _ a s
      ∙ rw (role_rules_user g.permissions_to_actions u role) (
          decided_user g.permissions_to_actions u.permissions a s (defined_rules g.definers u)
            clean)

  -- An administrator may do everything that the definers' rules do not take away, whatever the
  -- permissions say.
  pub create_for_user-admin_can :
      (g : Registry) (u : User) (a : Action) (s : String)
      → u.role ≡ admin
      → casl.can (create_for_user casl g u) a s ≡ decided a s true (defined_rules g.definers u)
  unfolding create_for_user
  create_for_user-admin_can g u a s role =
      casl.can_law _ a s
      ∙ rw (role, role_rules)
          (ground (arith, eq_iff s "all", eq_iff "all" "all", same_action_iff manage a))
