-- ===== src/Auth/Strategies.antt =====
-- The two passport strategies: packages/users-backend/src/jwt-auth/jwt-auth.srtategy.ts and
-- packages/users-backend/src/jwt-auth/jwt-auth.refresh.srtategy.ts. Passport calls `validate` with
-- the payload of a token whose signature and expiry it has verified.
use boar_pack.Base.{
  ℕ, String, ◌+◌, ◌*◌, Bool, false, Option, none, some, ◌==◌, if◌then◌else◌, text_eq, truthy_number,
  Result, ok, err, ◌>>=◌,
}
use boar_pack.Users.{User}
use boar_pack.Auth.Payload.{TokenType, access, refresh, Payload, token_type_eq}
use boar_pack.Auth.Revoked.{is_token_revoked, revoke_refresh_token}
use boar_pack.Auth.Runtime.{Runtime}
use boar_pack.Auth.Service.{or_null}

-- The `UnauthorizedException`s, by their messages; `no_user` is the one without a message.
pub data Rejection : Type 0 where
  invalid_token_type token_revoked invalid_payload no_user : Rejection

abbrev pub is_type : TokenType → Option TokenType → Bool
is_type t none = false
is_type t (some u) = u == t

module _ (rt : Runtime) where
  open rt use {repo, ms, refresh_expiration, find_user}

  abbrev pub user_or_throw : Option User → Result Rejection User
  user_or_throw none = err no_user
  user_or_throw (some u) = ok u

  abbrev pub jti_revoked : Option String → Option String → repo.Store → Bool
  jti_revoked none sid s = false
  jti_revoked (some jti) sid s = if jti == "" then false else is_token_revoked repo jti sid s

  -- `JwtAuthStrategy.validate`
  unfoldable pub validate_access : Payload → repo.Store → Result Rejection User
  validate_access payload s =
      if is_type access payload.type
      then (if jti_revoked payload.jti payload.sid s
          then err token_revoked
          else user_or_throw (find_user payload.sub))
      else err invalid_token_type

  abbrev pub checked_jti : Option String → Result Rejection String
  checked_jti none = err invalid_payload
  checked_jti (some jti) = if jti == "" then err invalid_payload else ok jti

  -- `JwtAuthRefreshStrategy.validate` up to the answer of `isTokenRevoked`: the identifier of a
  -- token that may be used.
  unfoldable pub check_refresh : Payload → repo.Store → Result Rejection String
  check_refresh payload s =
      if is_type refresh payload.type
      then (do
        jti ← checked_jti payload.jti
        (if is_token_revoked repo jti payload.sid s then err token_revoked else ok jti))
      else err invalid_token_type

  abbrev pub spent_expiry : Option ℕ → ℕ → ℕ
  spent_expiry none now = now + ms refresh_expiration
  spent_expiry (some exp) now =
      if truthy_number (some exp) then exp * 1000 else now + ms refresh_expiration

  -- What the call stores to prevent reuse.
  unfoldable pub consume_refresh : Payload → String → ℕ → repo.Store → repo.Store
  consume_refresh payload jti now s =
      revoke_refresh_token repo
        (record {
          jti = jti;
          expires_at = spent_expiry payload.exp now;
          sid = or_null payload.sid;
          token_type = refresh;
        })
        s

  -- The whole call, with nothing in between.
  unfoldable pub validate_refresh : Payload → ℕ → repo.Store → repo.Store × Result Rejection User
  unfolding check_refresh consume_refresh
  validate_refresh payload now s = elim (check_refresh payload s) [
    | err e ↦ (s, err e)
    | ok jti ↦ (consume_refresh payload jti now s, user_or_throw (find_user payload.sub))
  ]
