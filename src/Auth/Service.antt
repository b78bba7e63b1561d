-- ===== src/Auth/Service.antt =====
-- packages/users-backend/src/jwt-auth/jwt-auth.service.ts and
-- packages/users-backend/src/auth/auth.service.ts: issuing a pair of tokens, and logging out.
use boar_pack.Base.{
  ℕ, String, ◌+◌, ◌*◌, ◌/◌, Option, none, some, ◌==◌, if◌then◌else◌, text_eq, truthy_text,
  truthy_number, List, Bool-cases, inl, inr,
}
use boar_pack.Auth.Payload.{TokenType, access, refresh, RevokedToken, Payload}
use boar_pack.Auth.Revoked.{revoke_token}
use boar_pack.Auth.Runtime.{Runtime}

-- The part of a user that `login` reads.
pub record Account : Type 0 where
  pub id : String
  pub email : String

-- `x || null` on an optional text.
abbrev pub or_null : Option String → Option String
or_null none = none
or_null (some s) = if s == "" then none else some s

abbrev pub access_payload : Account → String → Payload
access_payload user sid = record {
  email = some user.email;
  sub = user.id;
  iat = none;
  exp = none;
  jti = none;
  sid = some sid;
  type = none;
}

abbrev pub refresh_payload : Account → String → Payload
refresh_payload user sid = record (access_payload user sid) { email = none }

module _ (rt : Runtime) where
  open rt use {repo, ms, access_expiration, refresh_expiration}

  pub record Signed : Type 0 where
    pub token : rt.Token
    pub payload : Payload

  -- `LocalAuthTokenDto`.
  pub record TokenPair : Type 0 where
    pub access_token : Signed
    pub refresh_token : Signed

  abbrev pub expires_in : TokenType → String
  expires_in access = access_expiration
  expires_in _ = refresh_expiration

  -- `sign`; `jti` is the `randomUUID()` that the call draws, `now` is `Date.now()`.
  unfoldable pub sign : Payload → TokenType → String → ℕ → Signed
  sign payload token_type jti now = record {
    token = rt.sign signed_payload lifetime jti now;
    payload = record signed_payload { exp = some ((ms lifetime + now) / 1000); jti = some jti };
  }
    where
      lifetime : String
      lifetime = expires_in token_type

      signed_payload : Payload
      signed_payload = record payload { type = some token_type }

  -- `login`; the three texts are the identifiers that it draws, in order.
  unfoldable pub login : Account → String → String → String → ℕ → TokenPair
  unfolding sign
  login user sid access_jti refresh_jti now = record {
    access_token = sign (access_payload user sid) access access_jti now;
    refresh_token = sign (refresh_payload user sid) refresh refresh_jti now;
  }

  -- The row that `logout` asks to store.
  abbrev pub logged_out : Payload → String → ℕ → RevokedToken
  logged_out jwt jti exp = record {
    jti = jti;
    expires_at = exp * 1000;
    token_type = access;
    sid = or_null jwt.sid;
  }

  logout_known : Payload → Option String → Option ℕ → ℕ → repo.Store → repo.Store
  logout_known jwt (some jti) (some exp) now s =
      if truthy_text (some jti)
      then (if truthy_number (some exp)
          then revoke_token repo (logged_out jwt jti exp) (ms refresh_expiration) now s
          else s)
      else s
  logout_known jwt _ _ now s = s

  -- A token without `jti` or `exp` is left alone.
  unfoldable pub logout : Payload → ℕ → repo.Store → repo.Store
  unfolding logout_known
  logout jwt now s = logout_known jwt jwt.jti jwt.exp now s

  logout_known_cases :
      (P : repo.Store → Type 0) (jwt : Payload) (jti : Option String) (exp : Option ℕ) (now : ℕ)
      (s : repo.Store)
      → P s
      → ((ts : List RevokedToken) → P (repo.insert_or_ignore ts s))
      → P (logout_known jwt jti exp now s)
  unfolding logout_known revoke_token
  logout_known_cases P jwt (some jti) (some exp) now s old new =
      elim (Bool-cases (truthy_text (some jti))) [
        | inl j ↦ elim (Bool-cases (truthy_number (some exp))) [
          | inl x ↦ rw (j, x) (new _)
          | inr x ↦ rw (j, x) old
        ]
        | inr j ↦ rw j old
      ]
  logout_known_cases P jwt none _ now s old new = old
  logout_known_cases P jwt _ none now s old new = old

  -- A logout leaves the table alone or makes one insertion.
  pub logout_cases :
      (P : repo.Store → Type 0) (jwt : Payload) (now : ℕ) (s : repo.Store)
      → P s
      → ((ts : List RevokedToken) → P (repo.insert_or_ignore ts s))
      → P (logout jwt now s)
  unfolding logout
  logout_cases P jwt now s = logout_known_cases P jwt jwt.jti jwt.exp now s
