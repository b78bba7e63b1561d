-- ===== src/Auth/Rotation.antt =====
-- A refresh token is good for one use.
use boar_pack.Base.{
  ℕ, String, ◌≡◌, refl, ◌∙◌, Bool, true, false, ◌&&◌, some, List, [], ◌==◌, text_eq, arith, leb, ok,
  err, leb_iff,
}
use text.Mathlib.TextEquality.{eq_iff}
use boar_pack.Auth.Payload.{refresh, RevokedToken, Payload}
use boar_pack.Auth.Revoked.{same_jti, is_token_revoked, revoke_refresh_token}
use boar_pack.Auth.Runtime.{Runtime}
use boar_pack.Auth.Strategies.{
  token_revoked, is_type, check_refresh, consume_refresh, validate_refresh, spent_expiry,
}
use boar_pack.Auth.History.{Request, CleanedBy, run}
use boar_pack.Auth.Rows.{holds, is_token_revoked_lem, holds-run, any-insert_rows_new, any_mono}

module _ (rt : Runtime) where
  open rt use {repo}

  -- What a passed check says of the payload and of the table.
  pub record Passed (payload : Payload) (jti : String) (s : repo.Store) : Type 0 where
    pub typed : is_type refresh payload.type ≡ true
    pub named : payload.jti ≡ some jti
    pub nonempty : (jti == "") ≡ false
    pub unrevoked : is_token_revoked repo jti payload.sid s ≡ false

  pub check_refresh-Passed :
      (payload : Payload) (jti : String) (s : repo.Store)
      → check_refresh rt payload s ≡ ok jti
      → Passed payload jti s
  unfolding check_refresh
  check_refresh-Passed payload jti s h = ground arith

  pub check_refresh_blocked :
      (payload : Payload) (jti : String) (s : repo.Store)
      → is_type refresh payload.type ≡ true
      → payload.jti ≡ some jti
      → (jti == "") ≡ false
      → is_token_revoked repo jti payload.sid s ≡ true
      → check_refresh rt payload s ≡ err token_revoked
  unfolding check_refresh
  check_refresh_blocked payload jti s typed named nonempty h = ground arith

  -- The row of the spent token, until its expiry.
  abbrev spent : String → ℕ → RevokedToken → Bool
  spent jti until r = same_jti jti r && leb until r.expires_at

  consume_refresh-spent :
      (payload : Payload) (jti : String) (now : ℕ) (s : repo.Store)
      → holds rt (same_jti jti) s ≡ false
      → holds rt
          (spent jti (spent_expiry rt payload.exp now))
          (consume_refresh rt payload jti now s)
        ≡ true
  unfolding consume_refresh revoke_refresh_token
  consume_refresh-spent payload jti now s new =
      repo.insert_law _ s _
      ∙ any-insert_rows_new _ _ [] (repo.rows s) new
          (ground (arith, eq_iff jti jti, leb_iff until until))
    where
      until : ℕ
      until = spent_expiry rt payload.exp now

  spent_blocks :
      (payload : Payload) (jti : String) (until : ℕ) (s t : repo.Store)
      → Passed payload jti s
      → holds rt (spent jti until) t ≡ true
      → check_refresh rt payload t ≡ err token_revoked
  spent_blocks payload jti until s t p stored =
      check_refresh_blocked payload jti t p.typed p.named p.nonempty
        (ground (arith, is_token_revoked_lem rt jti payload.sid t, listed))
    where
      listed : holds rt (same_jti jti) t ≡ true
      listed = any_mono _ _ (λ r e. ground arith) (repo.rows t) stored

  -- A check that follows the storing finds the token revoked.
  pub check_refresh-consume_refresh :
      (payload : Payload) (jti : String) (now : ℕ) (s : repo.Store)
      → check_refresh rt payload s ≡ ok jti
      → check_refresh rt payload (consume_refresh rt payload jti now s) ≡ err token_revoked
  check_refresh-consume_refresh payload jti now s h =
      let passed = check_refresh-Passed payload jti s h in
      spent_blocks payload jti _ s _ passed (
        consume_refresh-spent payload jti now s
          (ground (arith, passed.unrevoked, is_token_revoked_lem rt jti payload.sid s)))

  -- A refresh token that has passed the check of one request is refused by every later one,
  -- whatever requests come between, as long as no cleanup among them runs after the time until
  -- which the first request stored the token.
  pub validate_refresh_once :
      (payload : Payload) (jti : String) (now later : ℕ) (es : List Request) (s : repo.Store)
      → check_refresh rt payload s ≡ ok jti
      → CleanedBy (spent_expiry rt payload.exp now) es
      → (validate_refresh rt payload later (run rt es (validate_refresh rt payload now s).0)).1
        ≡ err token_revoked
  unfolding validate_refresh
  validate_refresh_once payload jti now later es s h c =
      let passed = check_refresh-Passed payload jti s h in
      let stored =
        consume_refresh-spent payload jti now s
          (ground (arith, passed.unrevoked, is_token_revoked_lem rt jti payload.sid s)) in
      let kept =
        holds-run rt (spent jti (spent_expiry rt payload.exp now)) _ (λ r e. ground arith) es _ c
          stored in
      rw (h, validate_refresh)
        (rw (spent_blocks payload jti _ s _ passed kept, validate_refresh) refl)
