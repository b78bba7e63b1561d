-- ===== src/Auth/Rows.antt =====
-- Which rows the table holds after each request, and what `isTokenRevoked` answers.
use text.Mathlib.TextEquality.{eq_iff}
use boar_pack.Base.{
  ◌≢◌, ℕ, String, ◌≤◌, ◌≡◌, refl, ◌∙◌, Bool, true, false, ◌||◌, ◌&&◌, Option, none, some, List, [],
  ◌∷◌, ◌++◌, ◌==◌, text_eq, if◌then◌else◌, any, any-append, keep, arith, leb, Bool-cases, inl, inr,
  Result-cases,
}
use boar_pack.Auth.Payload.{session, RevokedToken, Payload, token_type_eq}
use boar_pack.Auth.Revoked.{
  same_jti, insert_rows, revoke_refresh_token, is_token_revoked, cleanup_expired_tokens, by_jti,
  by_session, meets_any,
}
use boar_pack.Auth.Runtime.{Runtime}
use boar_pack.Auth.Service.{logout, logout_cases}
use boar_pack.Auth.Strategies.{validate_refresh, check_refresh, consume_refresh}
use boar_pack.Auth.History.{Request, log_out, use_refresh, clean, CleanedBy, step, run}

any-keep :
    (p q : RevokedToken → Bool)
    → ((r : RevokedToken) → p r ≡ true → q r ≡ true)
    → (rows : List RevokedToken) → any p (keep q rows) ≡ any p rows
any-keep p q h [] = refl
any-keep p q h (r ∷ rows) = ground (arith, any-keep p q h rows, h r)

-- An insertion keeps the rows that are there.
any-insert_rows :
    (p : RevokedToken → Bool) (ts rows : List RevokedToken)
    → any p rows ≡ true
    → any p (insert_rows ts rows) ≡ true
unfolding insert_rows
any-insert_rows p [] rows h = h
any-insert_rows p (t ∷ ts) rows h = elim (Bool-cases (any (same_jti t.jti) rows)) [
  | inl old ↦ rw old (any-insert_rows p ts rows h)
  | inr new ↦
      rw new (any-insert_rows p ts (rows ++ t ∷ []) (ground (arith, any-append p rows (t ∷ []))))
]

-- A row whose identifier is not there yet is stored as given.
pub any-insert_rows_new :
    (p : RevokedToken → Bool) (t : RevokedToken) (ts rows : List RevokedToken)
    → any (same_jti t.jti) rows ≡ false
    → p t ≡ true
    → any p (insert_rows (t ∷ ts) rows) ≡ true
unfolding insert_rows
any-insert_rows_new p t ts rows new h =
    rw new (any-insert_rows p ts (rows ++ t ∷ []) (ground (arith, any-append p rows (t ∷ []))))

abbrev of_sid : String → Option String → Bool
of_sid a none = false
of_sid a (some b) = b == a

-- The row blocks the session that a token names; a token without one is not blocked so.
abbrev pub in_session : Option String → RevokedToken → Bool
in_session none r = false
in_session (some sid) r = if sid == "" then false else of_sid sid r.sid && r.token_type == session

any-meets_any :
    (jti : String) (sid : Option String) (rows : List RevokedToken)
    → any (meets_any (by_jti jti ∷ by_session sid)) rows
      ≡ (any (same_jti jti) rows || any (in_session sid) rows)
any-meets_any jti sid [] = refl
any-meets_any jti none (r ∷ rows) = ground (arith, any-meets_any jti none rows)
any-meets_any jti (some sid) (r ∷ rows) = ground (arith, any-meets_any jti (some sid) rows)

-- The second row of an insertion is stored, unless a row of the wanted kind has its identifier.
pub any-insert_rows_second :
    (p : RevokedToken → Bool) (t u : RevokedToken) (rows : List RevokedToken)
    → t.jti ≢ u.jti
    → p u ≡ true
    → (any (same_jti u.jti) rows ≡ true → any p rows ≡ true)
    → any p (insert_rows (t ∷ u ∷ []) rows) ≡ true
unfolding insert_rows
any-insert_rows_second p t u rows apart h taken = ground (
  arith,
  eq_iff t.jti u.jti,
  any-append p rows (t ∷ []),
  any-append (same_jti u.jti) rows (t ∷ []),
  any-append p rows (u ∷ []),
  any-append p (rows ++ t ∷ []) (u ∷ []),
)

pub any_mono :
    (p q : RevokedToken → Bool)
    → ((r : RevokedToken) → p r ≡ true → q r ≡ true)
    → (rows : List RevokedToken) → any p rows ≡ true
    → any q rows ≡ true
any_mono p q h [] e = e
any_mono p q h (r ∷ rows) e = ground (arith, any_mono p q h rows, h r)

module _ (rt : Runtime) where
  open rt use {repo}

  abbrev pub holds : (RevokedToken → Bool) → repo.Store → Bool
  holds p s = any p (repo.rows s)

  pub is_token_revoked_lem :
      (jti : String) (sid : Option String) (s : repo.Store)
      → is_token_revoked repo jti sid s ≡ (holds (same_jti jti) s || holds (in_session sid) s)
  unfolding is_token_revoked
  is_token_revoked_lem jti sid s =
      repo.count_law (by_jti jti ∷ by_session sid) s ∙ any-meets_any jti sid (repo.rows s)

  holds-insert :
      (p : RevokedToken → Bool) (ts : List RevokedToken) (s : repo.Store)
      → holds p s ≡ true
      → holds p (repo.insert_or_ignore ts s) ≡ true
  holds-insert p ts s h = repo.insert_law ts s p ∙ any-insert_rows p ts (repo.rows s) h

  pub holds-logout :
      (p : RevokedToken → Bool) (jwt : Payload) (now : ℕ) (s : repo.Store)
      → holds p s ≡ true
      → holds p (logout rt jwt now s) ≡ true
  holds-logout p jwt now s h =
      logout_cases rt (λ t. holds p t ≡ true) jwt now s h (λ ts. holds-insert p ts s h)

  pub holds-validate_refresh :
      (p : RevokedToken → Bool) (payload : Payload) (now : ℕ) (s : repo.Store)
      → holds p s ≡ true
      → holds p (validate_refresh rt payload now s).0 ≡ true
  unfolding validate_refresh consume_refresh revoke_refresh_token
  holds-validate_refresh p payload now s h = elim (Result-cases (check_refresh rt payload s)) [
    | inl (jti, e) ↦ rw (e, validate_refresh) (holds-insert p _ s h)
    | inr (x, e) ↦ rw (e, validate_refresh) h
  ]

  pub holds-cleanup :
      (p : RevokedToken → Bool) (until now : ℕ) (s : repo.Store)
      → ((r : RevokedToken) → p r ≡ true → until ≤ r.expires_at)
      → now ≤ until
      → holds p s ≡ true
      → holds p (cleanup_expired_tokens repo now s) ≡ true
  unfolding cleanup_expired_tokens
  holds-cleanup p until now s late early h =
      repo.delete_law now s p
      ∙ any-keep p (λ r. leb now r.expires_at) (λ r e. ground (arith, late r e)) (repo.rows s)
      ∙ h

  -- A row that lasts beyond every cleanup of a history is there at its end.
  pub holds-run :
      (p : RevokedToken → Bool) (until : ℕ)
      → ((r : RevokedToken) → p r ≡ true → until ≤ r.expires_at)
      → (es : List Request) (s : repo.Store) → CleanedBy until es
      → holds p s ≡ true
      → holds p (run rt es s) ≡ true
  unfolding run step
  holds-run p until late [] s c h = h
  holds-run p until late (log_out jwt now ∷ es) s c h =
      holds-run p until late es (logout rt jwt now s) c (holds-logout p jwt now s h)
  holds-run p until late (use_refresh payload now ∷ es) s c h =
      holds-run p until late es (validate_refresh rt payload now s).0 c
        (holds-validate_refresh p payload now s h)
  holds-run p until late (clean now ∷ es) s (early, c) h =
      holds-run p until late es (cleanup_expired_tokens repo now s) c
        (holds-cleanup p until now s late early h)
