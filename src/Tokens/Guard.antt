-- ===== src/Tokens/Guard.antt =====
-- packages/users-backend/src/jwt-auth/jwt-auth.guard.ts and tokens/tokens-auth.guard.ts: which
-- mechanism authenticates a request. The guards of Passport are parameters.
use boar_pack.Base.{
  ℕ, String, ◌<>◌, ◌≡◌, ◌≢◌, refl, ap, ◌∙◌, Bool, true, false, not, ◌&&◌, Option, none, some, List,
  [], ◌∷◌, ◌++◌, any, find, arith, ◌==◌, text_eq, number_eq, if◌then◌else◌, split, length,
  contains_code, Bool-cases, inl, inr,
}
use text.Mathlib.TextEquality.{eq_iff}
use boar_pack.Tokens.Credentials.{
  bearer_of, is_api_token_credential, is_api_token_credential-split, extract_bearer_credential,
  extract_bearer_credential_lem, is_filled,
}

pub record Request : Type 0 where
  pub authorization : Option String

-- `TAlternativeAuthenticator`; `key` is the object's identity, and `R` what a guard answers.
pub record Alternative (R : Type 0) : Type 0 where
  pub key : ℕ
  pub matches : String → Bool
  pub can_activate : Request → R

module _ {R : Type 0} where
  -- `JwtAuthGuard.alternativeAuthenticators`, as registrations leave it.
  unfoldable pub register_alternative_authenticator :
      Alternative R → List (Alternative R) → List (Alternative R)
  register_alternative_authenticator authenticator authenticators =
      if any (λ a. a.key == authenticator.key) authenticators
      then authenticators
      else authenticators ++ (authenticator ∷ [])

  unfoldable pub clear_alternative_authenticators : List (Alternative R) → List (Alternative R)
  clear_alternative_authenticators authenticators = []

  -- `TokenAuthGuard.canActivate`: `skip` is the handler's mark, `bearer` the guard of Passport.
  unfoldable pub token_can_activate : R → (Request → R) → Bool → Request → R
  token_can_activate allow bearer skip request = if skip then allow else bearer request

  module _ (allow : R) (jwt : Request → R) (to_lower_case : String → String) where
    -- The parts of the header that the guard reads.
    abbrev pub parts_of : Option String → List String
    parts_of none = []
    parts_of (some authorization) = split b' ' authorization

    abbrev pub alternative_for : List (Alternative R) → List String → Option (Alternative R)
    alternative_for authenticators (scheme ∷ credential ∷ parts) =
        if to_lower_case scheme == "bearer" && not (credential == "")
        then find (λ a. a.matches credential) authenticators
        else none
    alternative_for authenticators parts = none

    abbrev pub answer : Request → Option (Alternative R) → R
    answer request (some alternative) = alternative.can_activate request
    answer request none = jwt request

    -- `JwtAuthGuard.canActivate`.
    unfoldable pub can_activate : Bool → List (Alternative R) → Request → R
    can_activate true authenticators request = allow
    can_activate false [] request = jwt request
    can_activate false (a ∷ authenticators) request =
        answer request (alternative_for (a ∷ authenticators) (parts_of request.authorization))

    -- The first alternative that matches the credential that `extractBearerCredential` reads.
    abbrev pub first_match : List (Alternative R) → Option String → Option (Alternative R)
    first_match authenticators (some credential) = find (λ a. a.matches credential) authenticators
    first_match authenticators none = none

    abbrev pub dispatched : List (Alternative R) → Request → R
    dispatched authenticators request =
        answer request (
          first_match authenticators
            (extract_bearer_credential to_lower_case request.authorization))

    alternative_for-bearer_of :
        (authenticators : List (Alternative R)) (parts : List String)
        → alternative_for authenticators parts
          ≡ first_match authenticators (bearer_of to_lower_case parts)
    alternative_for-bearer_of authenticators [] = refl
    alternative_for-bearer_of authenticators (scheme ∷ []) = refl
    alternative_for-bearer_of authenticators (scheme ∷ credential ∷ parts) =
        elim (Bool-cases (to_lower_case scheme == "bearer" && not (credential == ""))) [
          | inl bearer ↦ rw bearer refl
          | inr other ↦ rw other refl
        ]

    alternative_for-first_match :
        (authenticators : List (Alternative R)) (authorization : Option String)
        → alternative_for authenticators (parts_of authorization)
          ≡ first_match authenticators (extract_bearer_credential to_lower_case authorization)
    unfolding extract_bearer_credential
    alternative_for-first_match authenticators none = refl
    alternative_for-first_match authenticators (some authorization) =
        elim (Bool-cases (authorization == "")) [
          | inl empty ↦ rw empty (
              ap (λ x. alternative_for authenticators (split b' ' x))
                ((eq_iff authorization "").0 empty)
              ∙ unfold split in refl)
          | inr filled ↦
              rw filled (alternative_for-bearer_of authenticators (split b' ' authorization))
        ]

    first_match-none : (o : Option String) → none ≡ first_match [] o
    first_match-none none = refl
    first_match-none (some credential) = refl

    -- On a request that is not marked the guard is a search for the bearer credential among the
    -- alternatives: the first that matches it answers, and without one the JWT guard.
    pub can_activate-dispatched :
        (authenticators : List (Alternative R)) (request : Request)
        → can_activate false authenticators request ≡ dispatched authenticators request
    unfolding can_activate
    can_activate-dispatched [] request =
        ap (answer request)
          (first_match-none (extract_bearer_credential to_lower_case request.authorization))
    can_activate-dispatched (a ∷ authenticators) request =
        ap (answer request) (alternative_for-first_match (a ∷ authenticators) request.authorization)

    first_match_one :
        (a : Alternative R) (request : Request) (credential : String) (matched : Bool)
        → a.matches credential ≡ matched
        → extract_bearer_credential to_lower_case request.authorization ≡ some credential
        → can_activate false (a ∷ []) request
          ≡ (if matched then a.can_activate request else jwt request)
    first_match_one a request credential matched e bearer =
        can_activate-dispatched (a ∷ []) request
        ∙ ap (λ x. answer request (first_match (a ∷ []) x)) bearer
        ∙ one_answer (a.matches credential) matched e
      where
        one_answer :
            (tested matched : Bool)
            → tested ≡ matched
            → answer request (if tested then some a else none)
              ≡ (if matched then a.can_activate request else jwt request)
        one_answer true true e = refl
        one_answer false false e = refl
        one_answer true false e = ground (arith, e)
        one_answer false true e = ground (arith, e)

    -- With API tokens as the only alternative, a credential that dots do not cut into two parts,
    -- such as a JWT of three, is authenticated by the JWT guard.
    pub can_activate_jwt :
        (a : Alternative R) (request : Request) (credential : String)
        → ((c : String) → a.matches c ≡ is_api_token_credential c)
        → extract_bearer_credential to_lower_case request.authorization ≡ some credential
        → length (split b'.' credential) ≢ 2
        → can_activate false (a ∷ []) request ≡ jwt request
    can_activate_jwt a request credential tokens bearer parts =
        elim (Bool-cases (is_api_token_credential credential)) [
          | inl matched ↦
              let (id, secret, two, _) = is_api_token_credential-split credential matched in
              absurd (parts (ap length two))
          | inr fails ↦
              first_match_one a request credential false (tokens credential ∙ fails) bearer
        ]

    -- With API tokens as the only alternative, a request whose header has any spelling of `bearer`
    -- in the case of its letters and an API token is authenticated by the guard of the tokens.
    pub can_activate_token :
        (a : Alternative R) (scheme token : String)
        → ((c : String) → a.matches c ≡ is_api_token_credential c)
        → to_lower_case scheme ≡ "bearer"
        → contains_code b' ' scheme ≡ false
        → scheme ≢ ""
        → contains_code b' ' token ≡ false
        → is_api_token_credential token ≡ true
        → let request : Request = record { authorization = some (scheme <> " " <> token) } in
          can_activate false (a ∷ []) request ≡ a.can_activate request
    can_activate_token a scheme token tokens bearer h ne k matched =
        first_match_one a (record { authorization = some (scheme <> " " <> token) }) token true
          (tokens token ∙ matched)
          (extract_bearer_credential_lem to_lower_case scheme token bearer h ne k
            (is_filled token matched))
