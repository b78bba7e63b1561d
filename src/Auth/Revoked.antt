-- ===== src/Auth/Revoked.antt =====
-- packages/users-backend/src/revoked-tokens/revoked-tokens.service.ts. The TypeORM repository over
-- the database table is a parameter, with the documented meaning of the queries that are made.
use boar_pack.Base.{
  ℕ, String, ◌+◌, ◌≡◌, Bool, true, false, ◌&&◌, Option, none, some, List, [], ◌∷◌, ◌++◌, ◌==◌, ltb,
  leb, if◌then◌else◌, any, keep, text_eq,
}
use boar_pack.Auth.Payload.{TokenType, session, RevokedToken, token_type_eq}

-- `FindOptionsWhere<RevokedToken>`: a key that is not given puts no condition.
pub record Where : Type 0 where
  pub jti : Option String
  pub sid : Option String
  pub token_type : Option TokenType

abbrev pub wanted_text : Option String → Option String → Bool
wanted_text none stored = true
wanted_text (some a) none = false
wanted_text (some a) (some b) = b == a

abbrev pub wanted_type : Option TokenType → TokenType → Bool
wanted_type none stored = true
wanted_type (some t) stored = stored == t

-- One object of the `where` array: the conjunction of its keys.
abbrev pub meets : RevokedToken → Where → Bool
meets r w =
    wanted_text w.jti (some r.jti)
    && wanted_text w.sid r.sid
    && wanted_type w.token_type r.token_type

-- The `where` array: the disjunction of its objects.
abbrev pub meets_any : List Where → RevokedToken → Bool
meets_any ws r = any (meets r) ws

abbrev pub same_jti : String → RevokedToken → Bool
same_jti jti r = r.jti == jti

-- `INSERT … ON CONFLICT DO NOTHING` under the unique constraint on `jti`, row by row.
unfoldable pub insert_rows : List RevokedToken → List RevokedToken → List RevokedToken
insert_rows [] rows = rows
insert_rows (t ∷ ts) rows =
    insert_rows ts (if any (same_jti t.jti) rows then rows else rows ++ t ∷ [])

-- The table behind `Repository<RevokedToken>`. What a query sees of it is which rows it holds.
pub record Repository : Type 1 where
  pub Store : Type 0
  pub rows : Store → List RevokedToken
  pub insert_or_ignore : List RevokedToken → Store → Store
  pub count : List Where → Store → ℕ
  pub delete_expired : ℕ → Store → Store
  pub insert_law :
      (ts : List RevokedToken) (s : Store) (p : RevokedToken → Bool)
      → any p (rows (insert_or_ignore ts s)) ≡ any p (insert_rows ts (rows s))
  pub count_law : (ws : List Where) (s : Store) → ltb 0 (count ws s) ≡ any (meets_any ws) (rows s)
  pub delete_law :
      (now : ℕ) (s : Store) (p : RevokedToken → Bool)
      → any p (rows (delete_expired now s)) ≡ any p (keep (λ r. leb now r.expires_at) (rows s))

abbrev pub session_row : String → ℕ → RevokedToken
session_row sid expires_at = record {
  jti = sid;
  sid = some sid;
  token_type = session;
  expires_at = expires_at;
}

abbrev pub session_rows : Option String → ℕ → List RevokedToken
session_rows none expires_at = []
session_rows (some sid) expires_at = if sid == "" then [] else session_row sid expires_at ∷ []

abbrev pub by_jti : String → Where
by_jti jti = record { jti = some jti; sid = none; token_type = none }

abbrev pub by_session : Option String → List Where
by_session none = []
by_session (some sid) =
    if sid == "" then [] else record { jti = none; sid = some sid; token_type = some session } ∷ []

module _ (repo : Repository) where
  open repo use {Store, insert_or_ignore, count, delete_expired}

  -- `revokeToken`; `lifetime` is `ms(refreshTokenExpiration)` and `now` is `Date.now()`.
  unfoldable pub revoke_token : RevokedToken → ℕ → ℕ → Store → Store
  revoke_token token lifetime now s =
      insert_or_ignore (token ∷ session_rows token.sid (now + lifetime)) s

  unfoldable pub revoke_refresh_token : RevokedToken → Store → Store
  revoke_refresh_token token s = insert_or_ignore (token ∷ []) s

  unfoldable pub is_token_revoked : String → Option String → Store → Bool
  is_token_revoked jti sid s = ltb 0 (count (by_jti jti ∷ by_session sid) s)

  unfoldable pub cleanup_expired_tokens : ℕ → Store → Store
  cleanup_expired_tokens now s = delete_expired now s
