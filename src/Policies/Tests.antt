-- ===== src/Policies/Tests.antt =====
-- The access code over an ability that is its list of rules, and the theorems at concrete inputs.
use boar_pack.Base.{
  number_eq, not, String, ◌≡◌, ◌≢◌, ◌↔◌, ◌⊎◌, inr, refl, true, false, ◌&&◌, ◌||◌, none, some, List,
  [], ◌∷◌, text_eq, any, member, ok,
}
use boar_pack.Dict.{get, set, delete}
use boar_pack.Users.{User, admin, user}
use boar_pack.Policies.Switches
use boar_pack.Policies.Switches.{clicks, handled, answered, is_granted, click}
use boar_pack.Policies.Shown.{run-is_granted}
use boar_pack.Policies.Ability.{
  manage, read, Rule, bears, decided, Casl, Registry, defined_rules, create_for_user,
  add_permission_to_action, permission_rules,
}
use boar_pack.Policies.Grants.{grants, create_for_user-user_can, create_for_user-admin_can}
use boar_pack.Policies.Guard.{Context, http, Cleared, can_activate_iff}
use boar_pack.Policies.Guard
use boar_pack.Policies.Editing.{Body, Editor, update_one, written, update_one_iff, no_escalation}
use boar_pack.Policies.Editing
use boar_pack.Policies.Fields.{intercept, intercept-only}

abbrev rule_list : Casl
rule_list = record {
  Ability = List Rule;
  build = λ rs. rs;
  can = λ rs a s. decided a s false rs;
  can_law = λ rs a s. refl;
}

-- One permission, to view users; every user may manage the tokens of his own.
abbrev registry : Registry
registry = record {
  permissions_to_actions = ("view_users", record { action = read; subjects = "User" ∷ [] }) ∷ [];
  definers =
      (λ u.
        record { action = manage; subjects = "MyToken" ∷ []; inverted = false; partial = false }
        ∷ [])
      ∷ [];
}

abbrev bob : User
bob = record {
  id = "u2";
  email = "bob@example.com";
  role = user;
  permissions = "view_users" ∷ "unheard_of" ∷ [];
}

abbrev chief : User
chief = record bob { role = admin; permissions = [] }

registry_built :
    add_permission_to_action "view_users"
      (record { action = read; subjects = "User" ∷ [] })
      (record registry { permissions_to_actions = [] })
    ≡ registry
unfolding add_permission_to_action boar_pack.Dict.set
registry_built = refl

create_for_user-user_can_example :
    rule_list.can (create_for_user rule_list registry bob) read "User" ≡ (
      any (grants registry.permissions_to_actions read "User") bob.permissions
      || any (bears read "User") (defined_rules registry.definers bob))
create_for_user-user_can_example =
    create_for_user-user_can rule_list registry bob read "User" refl refl

admin_may :
    rule_list.can (create_for_user rule_list registry chief) manage "Setting"
    ≡ decided manage "Setting" true (defined_rules registry.definers chief)
admin_may = create_for_user-admin_can rule_list registry chief manage "Setting" refl

abbrev viewing : Context rule_list
viewing = record {
  type = http;
  skip_policies_guard = false;
  check_policies = some ((λ ability. decided read "User" false ability) ∷ []);
  user = some bob;
}

viewing_passes : Guard.can_activate rule_list registry viewing ≡ ok true
unfolding Guard.can_activate create_for_user permission_rules get
viewing_passes = refl

viewing_let_through :
    (Guard.can_activate rule_list registry viewing ≡ ok true)
    ↔ ((viewing.skip_policies_guard ≡ true) ⊎ Cleared rule_list registry viewing)
viewing_let_through = can_activate_iff rule_list registry viewing

abbrev editor : Editor {Value = String} "admin" rule_list
editor = record { account = chief; role = "admin"; email = "bob@example.com"; permissions = "" }

abbrev harmless : Body {Value = String} "admin" rule_list
harmless = record { role = some "admin"; email = none; permissions = none }

update_one_iff_example :
    (Editing.can_activate "admin" rule_list registry update_one "u2" (some editor) harmless
      ≡ ok true)
    ↔ ((("u2" ≢ editor.account.id)
          ⊎ ((written "admin" rule_list harmless.role editor.role ≡ editor.role)
              × (written "admin" rule_list harmless.email editor.email ≡ editor.email)
              × (written "admin" rule_list harmless.permissions editor.permissions
                  ≡ editor.permissions)))
        × ((harmless.role ≢ some "admin")
            ⊎ (rule_list.can (create_for_user rule_list registry chief) manage "all" ≡ true)))
update_one_iff_example = update_one_iff "admin" rule_list registry "u2" editor harmless

no_escalation_example : rule_list.can (create_for_user rule_list registry chief) manage "all" ≡ true
unfolding Editing.can_activate create_for_user
no_escalation_example =
    no_escalation "admin" rule_list registry update_one "u2" editor harmless (inr refl) refl refl

abbrev permitted : List String
permitted = "id" ∷ "name" ∷ []

abbrev requested : List String
requested = "name" ∷ "pass" ∷ []

abbrev selection : List String
selection = "name" ∷ []

intercept-only_example :
    (member "*" permitted ≡ false)
    × (selection ≢ [])
    × (member "id" selection ≡ (member "id" permitted && (false || member "id" requested)))
unfolding intercept
intercept-only_example = intercept-only permitted (some (some requested)) selection "id" refl

abbrev two_granted : Switches.Switches
two_granted = record {
  permissions_set = "docs" ∷ "logs" ∷ [];
  loading = false;
  requests = [];
  clicks_made = 0;
  stored = "docs" ∷ "logs" ∷ [];
}

-- A switch is turned off and on, the second of which the server refuses.
abbrev off_and_again : List Switches.Event
off_and_again =
    clicks "logs" ∷ handled 0 true ∷ answered 0 ∷ clicks "logs" ∷ handled 1 false ∷ answered 1 ∷ []

run-is_granted_example :
    let now = Switches.run false true off_and_again two_granted in
    (is_granted false true "logs" now ≡ (false || member "logs" now.stored))
    × (r : Switches.Request) × (get now.clicks_made (click false true "logs" now).requests ≡ some r)
    × (member "logs" r.sent ≡ not (member "logs" now.stored))
unfolding Switches.run Switches.step click Switches.toggle_permission Switches.settled get set
    delete
run-is_granted_example =
    run-is_granted false true off_and_again two_granted "logs" "logs" refl refl refl refl refl

-- Two requests overlap: the later is carried out and the earlier is refused, which brings back both
-- permissions, of which the server holds none.
abbrev overlapping : List Switches.Event
overlapping =
    clicks "logs" ∷ clicks "docs" ∷ handled 1 true ∷ answered 1 ∷ handled 0 false ∷ answered 0 ∷ []

shown_but_not_held :
    let now = Switches.run false true overlapping two_granted in
    (now.permissions_set ≡ "docs" ∷ "logs" ∷ []) × (now.stored ≡ [])
unfolding Switches.run Switches.step click Switches.toggle_permission Switches.settled get set
    delete
shown_but_not_held = (refl, refl)
