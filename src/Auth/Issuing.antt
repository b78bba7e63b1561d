-- ===== src/Auth/Issuing.antt =====
-- The pair of tokens of a login: accepted where it belongs, and nowhere else.
use text.Mathlib.TextEquality.{eq_iff}
use boar_pack.Base.{
  ℕ, String, ◌+◌, ◌≤◌, ◌<◌, ◌/◌, ◌≡◌, ◌≢◌, refl, ap, false, some, text_eq, arith, ok, err,
}
use boar_pack.Users.{User}
use boar_pack.Auth.Payload.{TokenType, access, refresh, session, Payload, token_type_eq}
use boar_pack.Auth.Revoked.{same_jti}
use boar_pack.Auth.Runtime.{Runtime, stamped}
use boar_pack.Auth.Service.{Account, access_payload, refresh_payload, login, sign, expires_in}
use boar_pack.Auth.Strategies.{invalid_token_type, validate_access, validate_refresh}
use boar_pack.Auth.Ending.{verified-stamped}
use boar_pack.Auth.Rows.{holds, in_session, is_token_revoked_lem}

module _ (rt : Runtime) where
  open rt use {repo, ms, access_expiration, refresh_expiration}

  -- A token is refused where another type belongs: an access token in a request to refresh, which
  -- then stores nothing, a refresh token as an access token, and one of a session as both.
  abbrev pub RefusedElsewhere : TokenType → Payload → ℕ → repo.Store → Type 0
  RefusedElsewhere access p now s = validate_refresh rt p now s ≡ (s, err invalid_token_type)
  RefusedElsewhere refresh p now s = validate_access rt p s ≡ err invalid_token_type
  RefusedElsewhere session p now s =
      (validate_refresh rt p now s ≡ (s, err invalid_token_type))
      × (validate_access rt p s ≡ err invalid_token_type)

  -- As long as a token verifies, whatever type its payload claimed before it was signed: signed as an
  -- access token it is refused in a request to refresh, which then stores nothing, signed as a
  -- refresh token it is refused as an access token, and signed for a session it is refused as both.
  pub sign_confusion :
      (type : TokenType) (payload p : Payload) (jti : String) (signed now : ℕ) (s : repo.Store)
      → rt.verify (sign rt payload type jti signed).token now ≡ some p
      → RefusedElsewhere type p now s
  unfolding sign validate_access validate_refresh
  sign_confusion access payload p jti signed now s v =
      rw (verified-stamped rt _ access_expiration jti signed now v) refl
  sign_confusion refresh payload p jti signed now s v =
      rw (verified-stamped rt _ refresh_expiration jti signed now v) refl
  sign_confusion session payload p jti signed now s v =
      rw (verified-stamped rt _ refresh_expiration jti signed now v) (refl, refl)

  -- The time at which the holder of the pair is told that a token ends is that of the token, or up
  -- to a second later.
  pub sign-exp_bounds :
      (payload p : Payload) (t : TokenType) (jti : String) (signed now : ℕ)
      → rt.verify (sign rt payload t jti signed).token now ≡ some p
      → (told : ℕ) × (real : ℕ) × ((sign rt payload t jti signed).payload.exp ≡ some told)
        × (p.exp ≡ some real)
        × (real ≤ told)
        × (told ≤ real + 1)
  unfolding sign
  sign-exp_bounds payload p t jti signed now v = (
    (ms (expires_in rt t) + signed) / 1000,
    signed / 1000 + ms (expires_in rt t) / 1000,
    refl,
    ap (λ x. x.exp) (verified-stamped rt _ (expires_in rt t) jti signed now v),
    omega arith,
    omega arith,
  )

  -- Before their ends, and while the table blocks neither the token nor the session, the access
  -- token of a login identifies the user, and the refresh token does so in a request to refresh.
  pub login-accepted :
      (user : Account) (u : User) (sid access_jti refresh_jti : String) (signed now : ℕ)
      (s : repo.Store)
      → rt.find_user user.id ≡ some u
      → access_jti ≢ ""
      → refresh_jti ≢ ""
      → holds rt (same_jti access_jti) s ≡ false
      → holds rt (same_jti refresh_jti) s ≡ false
      → holds rt (in_session (some sid)) s ≡ false
      → now / 1000 < signed / 1000 + ms access_expiration / 1000
      → now / 1000 < signed / 1000 + ms refresh_expiration / 1000
      → let pair = login rt user sid access_jti refresh_jti signed in
        (p : Payload) × (q : Payload) × (rt.verify pair.access_token.token now ≡ some p)
        × (validate_access rt p s ≡ ok u)
        × (rt.verify pair.refresh_token.token now ≡ some q)
        × ((validate_refresh rt q now s).1 ≡ ok u)
  unfolding login validate_access validate_refresh
  login-accepted user u sid access_jti refresh_jti signed now s found ga gr fa fr fs la lr = (
    stamped (record (access_payload user sid) { type = some access }) (ms access_expiration) signed
        access_jti,
    stamped (record (refresh_payload user sid) { type = some refresh }) (ms refresh_expiration)
        signed refresh_jti,
    ground (
      arith,
      rt.verify_law (record (access_payload user sid) { type = some access }) access_expiration
          access_jti signed now,
    ),
    ground (arith, eq_iff access_jti "", is_token_revoked_lem rt access_jti (some sid) s),
    ground (
      arith,
      rt.verify_law (record (refresh_payload user sid) { type = some refresh }) refresh_expiration
          refresh_jti signed now,
    ),
    ground (arith, eq_iff refresh_jti "", is_token_revoked_lem rt refresh_jti (some sid) s),
  )
