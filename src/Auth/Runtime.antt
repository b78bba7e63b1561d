-- ===== src/Auth/Runtime.antt =====
-- What the session code takes from outside: the table of revoked tokens, `ms`, the library that
-- signs and verifies JSON web tokens, the configuration, and the users' repository.
use boar_pack.Base.{ℕ, String, ◌+◌, ◌/◌, ◌≡◌, Option, none, some, ltb, if◌then◌else◌}
use boar_pack.Users.{User}
use boar_pack.Auth.Payload.{Payload}
use boar_pack.Auth.Revoked.{Repository}

-- The payload that verification hands back: `iat`, `exp` and `jti` are those of the signer, which
-- works in whole seconds.
abbrev pub stamped : Payload → (lifetime now : ℕ) → String → Payload
stamped p lifetime now jti = record p {
  iat = some (now / 1000);
  exp = some (now / 1000 + lifetime / 1000);
  jti = some jti;
}

-- A token is opaque to the code. `sign` takes the payload, `expiresIn`, `jwtid` and the time. A token is good up to, and not
-- including, the second of its `exp`.
pub record Runtime : Type 1 where
  pub repo : Repository
  pub Token : Type 0
  pub ms : String → ℕ
  pub access_expiration : String
  pub refresh_expiration : String
  pub sign : Payload → String → String → ℕ → Token
  pub verify : Token → ℕ → Option Payload
  pub find_user : String → Option User
  pub verify_law :
      (p : Payload) (expires_in jti : String) (signed now : ℕ)
      → verify (sign p expires_in jti signed) now ≡ (
          if ltb (now / 1000) (signed / 1000 + ms expires_in / 1000)
          then some (stamped p (ms expires_in) signed jti)
          else none)
