-- ===== src/Auth/Ending.antt =====
-- A logout ends the session: both tokens of the pair are refused for as long as they verify.
use text.Mathlib.TextEquality.{eq_iff}
use boar_pack.Base.{
  ℕ, String, ◌+◌, ◌≤◌, ◌<◌, ◌/◌, ◌≡◌, ◌≢◌, refl, ◌∙◌, Bool, true, ◌&&◌, some, List, [], ◌∷◌,
  text_eq, arith, leb, err,
}
use boar_pack.Auth.Payload.{access, RevokedToken, Payload, token_type_eq}
use boar_pack.Auth.Revoked.{session_row, same_jti, revoke_token}
use boar_pack.Auth.Runtime.{Runtime, stamped}
use boar_pack.Auth.Service.{logged_out, Account, access_payload, login, logout}
use boar_pack.Auth.Strategies.{token_revoked, check_refresh, validate_access, validate_refresh}
use boar_pack.Auth.History.{Request, CleanedBy, run}
use boar_pack.Auth.Rows.{
  holds, in_session, is_token_revoked_lem, holds-run, any-insert_rows_second, any_mono,
}

-- The row blocks the session until the given time.
abbrev pub lasting : String → ℕ → RevokedToken → Bool
lasting sid until r = in_session (some sid) r && leb until r.expires_at

module _ (rt : Runtime) where
  open rt use {repo, ms, access_expiration, refresh_expiration}

  -- What the verification of a token of the pair says.
  module _ (payload : Payload) (expires_in jti : String) (signed now : ℕ) {p : Payload}
      (verified : rt.verify (rt.sign payload expires_in jti signed) now ≡ some p) where
    pub verified-stamped : p ≡ stamped payload (ms expires_in) signed jti
    verified-stamped = ground (arith, rt.verify_law payload expires_in jti signed now)

    pub verified-lt : now / 1000 < signed / 1000 + ms expires_in / 1000
    verified-lt = ground (arith, rt.verify_law payload expires_in jti signed now)

  -- The identifiers drawn at a login, and what the table may hold under the session's: rows that
  -- block this session for as long as its tokens live, as an earlier logout leaves them.
  pub record Drawn (sid access_jti refresh_jti : String) (signed : ℕ) (s : repo.Store)
      : Type 0 where
    pub sid_given : sid ≢ ""
    pub access_given : access_jti ≢ ""
    pub refresh_given : refresh_jti ≢ ""
    pub apart : access_jti ≢ sid
    pub own :
        holds rt (same_jti sid) s ≡ true
        → holds rt (lasting sid (signed + ms refresh_expiration)) s ≡ true

  module _ (user : Account) (sid access_jti refresh_jti : String) (signed out : ℕ) (jwt : Payload)
      (s : repo.Store) (drawn : Drawn sid access_jti refresh_jti signed s) (later : signed ≤ out)
      (verified : rt.verify (login rt user sid access_jti refresh_jti signed).access_token.token out
        ≡ some jwt) where
    issued : Payload
    issued = record (access_payload user sid) { type = some access }

    jwt-stamped : jwt ≡ stamped issued (ms access_expiration) signed access_jti
    unfolding login issued
    jwt-stamped = verified-stamped issued access_expiration access_jti signed out verified

    jwt-lt : out / 1000 < signed / 1000 + ms access_expiration / 1000
    unfolding login issued
    jwt-lt = verified-lt issued access_expiration access_jti signed out verified

    jwt_exp : ℕ
    jwt_exp = signed / 1000 + ms access_expiration / 1000

    logout-eq :
        logout rt jwt out s
        ≡ repo.insert_or_ignore
            (logged_out rt jwt access_jti jwt_exp
              ∷ session_row sid (out + ms refresh_expiration)
              ∷ [])
            s
    unfolding logout revoke_token issued jwt_exp
    logout-eq = rw jwt-stamped (
        ground
          (arith, eq_iff access_jti "", eq_iff sid "", drawn.sid_given, drawn.access_given, jwt-lt))

    logout-lasting :
        holds rt (lasting sid (signed + ms refresh_expiration)) (logout rt jwt out s) ≡ true
    logout-lasting = rw logout-eq (
        repo.insert_law _ s _
        ∙ any-insert_rows_second (lasting sid (signed + ms refresh_expiration)) _ _ (repo.rows s)
            drawn.apart (ground (arith, eq_iff sid "", eq_iff sid sid, drawn.sid_given)) drawn.own)

    module _ (es : List Request) (now : ℕ) (p : Payload) (cleaned : CleanedBy now es) where
      session_blocked :
          now ≤ signed + ms refresh_expiration
          → holds rt (in_session (some sid)) (run rt es (logout rt jwt out s)) ≡ true
      session_blocked live =
          any_mono _ _ (λ r e. ground arith) (repo.rows (run rt es (logout rt jwt out s)))
            (holds-run rt (lasting sid now) now (λ r e. ground arith) es _ cleaned
              (any_mono _ _ (λ r e. ground arith) (repo.rows (logout rt jwt out s)) logout-lasting))

      -- After the logout no request succeeds with the access token of the pair, whatever requests
      -- have come in between: if the token still verifies, the strategy answers that it is revoked.
      -- Access tokens live no longer than refresh tokens.
      pub logout-ends_access :
          ms access_expiration ≤ ms refresh_expiration
          → rt.verify (login rt user sid access_jti refresh_jti signed).access_token.token now
            ≡ some p
          → validate_access rt p (run rt es (logout rt jwt out s)) ≡ err token_revoked
      unfolding login validate_access issued
      logout-ends_access shorter v =
          rw (verified-stamped issued access_expiration access_jti signed now v) (
            ground (
              arith,
              eq_iff access_jti "",
              drawn.access_given,
              is_token_revoked_lem rt access_jti (some sid) (run rt es (logout rt jwt out s)),
              session_blocked,
              verified-lt issued access_expiration access_jti signed now v,
            ))

      refresh_refused :
          rt.verify (login rt user sid access_jti refresh_jti signed).refresh_token.token now
            ≡ some p
          → check_refresh rt p (run rt es (logout rt jwt out s)) ≡ err token_revoked
      unfolding login check_refresh
      refresh_refused v = rw (verified-stamped _ refresh_expiration refresh_jti signed now v) (
          ground (
            arith,
            eq_iff refresh_jti "",
            drawn.refresh_given,
            is_token_revoked_lem rt refresh_jti (some sid) (run rt es (logout rt jwt out s)),
            session_blocked,
            verified-lt _ refresh_expiration refresh_jti signed now v,
          ))

      -- Nor does a request to refresh with the other token of the pair, and it stores nothing.
      pub logout-ends_refresh :
          rt.verify (login rt user sid access_jti refresh_jti signed).refresh_token.token now
            ≡ some p
          → validate_refresh rt p now (run rt es (logout rt jwt out s))
            ≡ (run rt es (logout rt jwt out s), err token_revoked)
      unfolding validate_refresh
      logout-ends_refresh v = rw (refresh_refused v, validate_refresh) refl
