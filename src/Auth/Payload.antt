-- ===== src/Auth/Payload.antt =====
-- Token payloads and rows of the table of revoked tokens:
-- packages/users-backend/src/revoked-tokens/entities/revoked-token.entity.ts and
-- packages/users-backend/src/jwt-auth/jwt-auth.srtategy.ts.
use boar_pack.Base.{ℕ, String, ◌≡◌, ◌↔◌, Bool, true, false, Option, arith, Eq}

pub data TokenType : Type 0 where
  access refresh session : TokenType

abbrev same_type : TokenType → TokenType → Bool
same_type access access = true
same_type refresh refresh = true
same_type session session = true
same_type _ _ = false

pub same_type_iff : (a b : TokenType) → (same_type a b ≡ true) ↔ (a ≡ b)
same_type_iff a b = ground arith

instance abbrev pub token_type_eq : Eq TokenType
token_type_eq = record { test = same_type; decides = same_type_iff }

-- `TRevokedToken`; times are in milliseconds.
pub record RevokedToken : Type 0 where
  pub jti : String
  pub sid : Option String
  pub token_type : TokenType
  pub expires_at : ℕ

-- `TJWTPayload` and `TJWTRefreshPayload`, which lacks the email; `iat` and `exp` are in seconds.
pub record Payload : Type 0 where
  pub email : Option String
  pub sub : String
  pub iat : Option ℕ
  pub exp : Option ℕ
  pub jti : Option String
  pub sid : Option String
  pub type : Option TokenType
