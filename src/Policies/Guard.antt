-- ===== src/Policies/Guard.antt =====
-- packages/users-backend/src/casl/policies.guard.ts. What the reflector finds on the handler or its
-- class is given with the request.
use boar_pack.Base.{
  ◌≡◌, ◌↔◌, ◌≢◌, Bool-cases, Option-cases, ◌⊎◌, inl, inr, refl, Bool, true, false, Option, none,
  some, List, if◌then◌else◌, arith, all, Result, ok, err, ◌>>=◌,
}
use boar_pack.Users.{User}
use boar_pack.Policies.Ability.{Casl, Registry, create_for_user}

pub data ContextType : Type 0 where
  http ws rpc : ContextType

pub data GuardError : Type 0 where
  unknown_context_type : GuardError
  type_error : GuardError

module _ (casl : Casl) where
  abbrev PolicyHandler : Type 0
  PolicyHandler = casl.Ability → Bool

  pub record Context : Type 0 where
    pub type : ContextType
    pub skip_policies_guard : Bool
    pub check_policies : Option (List PolicyHandler)
    pub user : Option User

  abbrev known_type : ContextType → Result GuardError (Unit {0})
  known_type rpc = err unknown_context_type
  known_type _ = ok tt

  -- The ability of a user who is not there: reading the role of `undefined` throws.
  abbrev ability_of : Registry → Option User → Result GuardError casl.Ability
  ability_of g none = err type_error
  ability_of g (some u) = ok (create_for_user casl g u)

  abbrev checking : Registry → Context → Option (List PolicyHandler) → Result GuardError Bool
  checking g c none = ok false
  checking g c (some handlers) = do
    _ ← known_type c.type
    ability ← ability_of g c.user
    ok (all (λ handler. handler ability) handlers)

  unfoldable pub can_activate : Registry → Context → Result GuardError Bool
  can_activate g c = if c.skip_policies_guard then ok true else checking g c c.check_policies

  -- What lets a request through that is not exempt: it is of a known type, policies are named, the
  -- user is known, and each policy accepts the user's ability.
  pub record Cleared (g : Registry) (c : Context) : Type 0 where
    pub handlers : List PolicyHandler
    pub who : User
    pub known : c.type ≢ rpc
    pub named : c.check_policies ≡ some handlers
    pub authenticated : c.user ≡ some who
    pub accepted : all (λ handler. handler (create_for_user casl g who)) handlers ≡ true

  can_activate-of_Cleared :
      (g : Registry) (c : Context)
      → c.skip_policies_guard ≡ false
      → Cleared g c
      → can_activate g c ≡ ok true
  unfolding can_activate
  can_activate-of_Cleared g c s k =
      rw (s, k.named, k.authenticated) (ground (arith, k.known, k.accepted))

  exempt : (g : Registry) (c : Context) → c.skip_policies_guard ≡ true → can_activate g c ≡ ok true
  unfolding can_activate
  exempt g c s = rw s refl

  module _ (g : Registry) (c : Context) (s : c.skip_policies_guard ≡ false)
      (h : can_activate g c ≡ ok true) where
    checked_Cleared :
        (handlers : List PolicyHandler) (who : User)
        → c.check_policies ≡ some handlers
        → c.user ≡ some who
        → Cleared g c
    unfolding can_activate
    checked_Cleared handlers who named found = record {
      handlers = handlers;
      who = who;
      known = ground arith;
      named = named;
      authenticated = found;
      accepted = ground arith;
    }

    cleared : Cleared g c
    unfolding can_activate
    cleared = elim (Option-cases c.check_policies) [
      | inl e ↦ cc (rw (s, e, can_activate) at h)
      | inr (handlers, e) ↦ elim (Option-cases c.user) [
        | inl f ↦ absurd (ground arith)
        | inr (who, f) ↦ checked_Cleared handlers who e f
      ]
    ]

  -- A request passes exactly if it is exempt from the guard or is cleared by the policies of its
  -- handler: an endpoint without policies is closed, and so is one without a user.
  pub can_activate_iff :
      (g : Registry) (c : Context)
      → (can_activate g c ≡ ok true) ↔ ((c.skip_policies_guard ≡ true) ⊎ Cleared g c)
  can_activate_iff g c = (
    λ h. elim (Bool-cases c.skip_policies_guard) [ inl s ↦ inl s | inr s ↦ inr (cleared g c s h) ],
    λ k. elim (Bool-cases c.skip_policies_guard) [
      | inl s ↦ exempt g c s
      | inr s ↦ can_activate-of_Cleared g c s (elim k [ inl t ↦ absurd (ground arith) | inr d ↦ d ])
    ],
  )
