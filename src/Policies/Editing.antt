-- ===== src/Policies/Editing.antt =====
-- packages/users-backend/src/users/users-editing.guard.ts.
use boar_pack.Base.{
  String, ◌≡◌, ◌≢◌, ◌↔◌, ◌⊎◌, inl, inr, Option-cases, Bool, true, false, not, ◌&&◌, Option, none,
  some, ◌==◌, Eq, text_eq, if◌then◌else◌, arith, Result, ok, err, ◌>>◌,
}
use text.Mathlib.TextEquality.{eq_iff}
use boar_pack.Users.{User}
use boar_pack.Policies.Ability.{Casl, manage, Registry, create_for_user}

-- `getAction(handler)`; `other` stands for any other route.
pub data CrudAction : Type 0 where
  create_one update_one delete_one other : CrudAction

pub data EditError : Type 0 where
  no_user_in_guard cannot_create_admin cannot_change_role cannot_change_email : EditError
  cannot_change_permissions cannot_change_role_to_admin cannot_delete_himself : EditError

abbrev forbid : Bool → EditError → Result EditError (Unit {0})
forbid true e = err e
forbid false e = ok tt

-- The body is JSON: its values are of a type with equality, in which the roles' names and the
-- user's own fields are found. A key that is not there is `undefined`.
module _ {Value : Type 0} ⦃eq : Eq Value⦄ (admin_value : Value) (casl : Casl) where
  pub record Body : Type 0 where
    pub role : Option Value
    pub email : Option Value
    pub permissions : Option Value

  -- The user of the request, with the fields that the guard compares as values.
  pub record Editor : Type 0 where
    pub account : User
    pub role : Value
    pub email : Value
    pub permissions : Value

  -- `new !== old && new !== undefined`
  abbrev changes : Option Value → Value → Bool
  changes none old = false
  changes (some new) old = not (new == old)

  abbrev asks_for_admin : Body → Bool
  asks_for_admin b = elim b.role [ none ↦ false | some v ↦ v == admin_value ]

  abbrev may_manage_all : Registry → Editor → Bool
  may_manage_all g e = casl.can (create_for_user casl g e.account) manage "all"

  own_fields : Editor → Body → Result EditError (Unit {0})
  own_fields e b = do
    forbid (changes b.role e.role) cannot_change_role
    forbid (changes b.email e.email) cannot_change_email
    forbid (changes b.permissions e.permissions) cannot_change_permissions

  checked : Registry → CrudAction → String → Editor → Body → Result EditError (Unit {0})
  unfolding own_fields
  checked g create_one id e b =
      forbid (asks_for_admin b && not (may_manage_all g e)) cannot_create_admin
  checked g update_one id e b = do
    (if id == e.account.id then own_fields e b else ok tt)
    forbid (asks_for_admin b && not (may_manage_all g e)) cannot_change_role_to_admin
  checked g delete_one id e b = forbid (id == e.account.id) cannot_delete_himself
  checked g other id e b = ok tt

  unfoldable pub can_activate :
      Registry → CrudAction → String → Option Editor → Body → Result EditError Bool
  unfolding checked
  can_activate g action id none b = err no_user_in_guard
  can_activate g action id (some e) b = do checked g action id e b; ok true

  -- The fields that an update leaves in place of the old ones.
  abbrev pub written : Option Value → Value → Value
  written none old = old
  written (some new) old = new

  abbrev IsUnchanged : Option Value → Value → Type 0
  IsUnchanged new old = written new old ≡ old

  changes_iff : (new : Option Value) (old : Value) → (changes new old ≡ false) ↔ IsUnchanged new old
  changes_iff none old = ground arith
  changes_iff (some new) old = ground (arith, eq.decides new old)

  asks_for_admin_iff : (b : Body) → (asks_for_admin b ≡ true) ↔ (b.role ≡ some admin_value)
  asks_for_admin_iff b = elim (Option-cases b.role) [
    | inl e ↦ rw (e, asks_for_admin) (ground arith)
    | inr (v, e) ↦ rw (e, asks_for_admin) (ground (arith, eq.decides v admin_value))
  ]

  -- A request to update passes exactly if the body leaves role, email and permissions of the editor
  -- as they are, or the id in the path is another text than the editor's own, and if, should the body
  -- ask for the administrator's role, the editor's ability covers everything.
  pub update_one_iff :
      (g : Registry) (id : String) (e : Editor) (b : Body)
      → (can_activate g update_one id (some e) b ≡ ok true) ↔ (
          ((id ≢ e.account.id)
            ⊎ (IsUnchanged b.role e.role
                × IsUnchanged b.email e.email
                × IsUnchanged b.permissions e.permissions))
          × ((b.role ≢ some admin_value) ⊎ (may_manage_all g e ≡ true)))
  unfolding can_activate
  update_one_iff g id e b = ground (
    arith,
    eq_iff id e.account.id,
    changes_iff b.role e.role,
    changes_iff b.email e.email,
    changes_iff b.permissions e.permissions,
    asks_for_admin_iff b,
  )

  -- Nobody makes an administrator without an ability that covers everything: whenever a request to
  -- create or update an account passes and its body asks for that role, the editor has it.
  pub no_escalation :
      (g : Registry) (action : CrudAction) (id : String) (e : Editor) (b : Body)
      → (action ≡ create_one) ⊎ (action ≡ update_one)
      → b.role ≡ some admin_value
      → can_activate g action id (some e) b ≡ ok true
      → may_manage_all g e ≡ true
  unfolding can_activate
  no_escalation g action id e b kind asks h = ground (arith, asks_for_admin_iff b)
