-- ===== src/Auth/Cleared.antt =====
-- What a browser holds of a session after its routes.
use boar_pack.Base.{
  ℕ, String, ◌+◌, ◌-◌, ◌*◌, ◌/◌, ◌≤◌, ◌≡◌, refl, Bool, ◌&&◌, ◌||◌, some, List, [], ◌∷◌, text_eq,
  number_eq, ◌==◌, arith, Bool-cases, inl, inr, leb, ◌⊎◌, ok,
}
use boar_pack.Auth.Payload.{Payload}
use boar_pack.Auth.Runtime.{Runtime}
use boar_pack.Auth.Service.{Account, login, sign}
use boar_pack.Auth.Cookies.{
  token_name, refresh_token_name, Cookie, Jar, max_age_of, set_cookie, refresh_route,
}

abbrev pub receive_all : {T : Type 0} (jar : Jar T) → List (Cookie T) → jar.Cookies → jar.Cookies
receive_all jar [] s = s
receive_all jar (c ∷ cs) s = receive_all jar cs (jar.receive c s)

-- The places of the two cookies.
abbrev pub is_of_session : String → String → String → Bool
is_of_session path name at =
    (token_name == name && "/" == at) || (refresh_token_name == name && path == at)

-- A cookie that is set at `later` is held until `end` at most.
abbrev pub HeldUntil : {T : Type 0} → (end later : ℕ) → Cookie T → Type 0
HeldUntil end later c = (age : ℕ) × (c.max_age ≡ some age) × ((age ≡ 0) ⊎ (later + age ≤ end))

max_age_bound :
    (lifetime now later : ℕ)
    → (age : ℕ) × (max_age_of (some ((lifetime + now) / 1000)) later ≡ some age)
      × ((age ≡ 0) ⊎ (later + age ≤ now + lifetime))
max_age_bound lifetime now later = elim (Bool-cases ((lifetime + now) / 1000 == 0)) [
  | inl never ↦ (0, rw never refl, inl refl)
  | inr some_time ↦ (
    (lifetime + now) / 1000 * 1000 - later,
    rw some_time refl,
    elim (Bool-cases (leb ((lifetime + now) / 1000 * 1000) later)) [
      | inl over ↦ inl (ground (arith, over))
      | inr left ↦ inr (ground (arith, left))
    ],
  )
]

module _ (rt : Runtime) (path : String) (secure : Bool) where
  open rt use {ms, access_expiration, refresh_expiration}

  -- The two cookies of a refresh for a known user, whenever they are set, are held no longer than the
  -- lifetimes that the tokens were signed with, counted from the time of signing.
  pub refresh_route-HeldUntil :
      (user : Account) (sid access_jti refresh_jti : String) (now later : ℕ)
      → (a b : Cookie rt.Token) × (refresh_route rt path secure
            (some user)
            sid
            access_jti
            refresh_jti
            now
            later
          ≡ ok (a ∷ b ∷ []))
        × HeldUntil (now + ms access_expiration) later a
        × HeldUntil (now + ms refresh_expiration) later b
  unfolding refresh_route set_cookie login sign
  refresh_route-HeldUntil user sid access_jti refresh_jti now later = (
    _,
    _,
    refl,
    max_age_bound (ms access_expiration) now later,
    max_age_bound (ms refresh_expiration) now later,
  )
