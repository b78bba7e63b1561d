-- ===== src/Auth/Cookies.antt =====
-- The cookies of a session and the routes that set them: `setCookie` and `clearCookies` of
-- packages/users-backend/src/auth/auth.service.ts, and auth.controller.ts beside it. The browser's
-- jar of cookies is a parameter with the documented meaning of `Set-Cookie`.
use boar_pack.Base.{
  ℕ, String, ◌-◌, ◌*◌, ◌≡◌, Bool, ◌&&◌, Option, none, some, List, [], ◌∷◌, text_eq, number_eq, ◌==◌,
  if◌then◌else◌, Result, ok, err,
}
use boar_pack.Auth.Payload.{Payload}
use boar_pack.Auth.Runtime.{Runtime}
use boar_pack.Auth.Service.{Account, TokenPair, login, logout}

abbrev pub token_name : String
token_name = "auth_token"

abbrev pub refresh_token_name : String
refresh_token_name = "auth_refresh_token"

-- A cookie as it is set, or, without a value, cleared. Without a path it is for all of the site.
pub record Cookie (T : Type 0) : Type 0 where
  pub name : String
  pub value : Option T
  pub path : String
  pub secure : Bool
  pub max_age : Option ℕ

abbrev pub is_cookie : {T : Type 0} → String → String → Cookie T → Bool
is_cookie name path c = c.name == name && c.path == path

abbrev pub kept_value : {T : Type 0} → Cookie T → Option T
kept_value c = elim c.max_age [ some n ↦ if n == 0 then none else c.value | none ↦ c.value ]

pub record Jar (T : Type 0) : Type 1 where
  pub Cookies : Type 0
  pub value : String → String → Cookies → Option T
  pub receive : Cookie T → Cookies → Cookies
  pub receive_law :
      (name path : String) (c : Cookie T) (s : Cookies)
      → value name path (receive c s)
        ≡ (if is_cookie name path c then kept_value c else value name path s)

-- `exp && Math.max(exp * 1000 - Date.now(), 0)`.
abbrev pub max_age_of : Option ℕ → ℕ → Option ℕ
max_age_of none now = none
max_age_of (some exp) now = if exp == 0 then some 0 else some (exp * 1000 - now)

pub data Unauthorized : Type 0 where
  not_authorized : Unauthorized

module _ (rt : Runtime) (refresh_token_path : String) (secure_cookie : Bool) where
  -- `setCookie`, at the time `now`.
  unfoldable pub set_cookie : TokenPair rt → ℕ → List (Cookie rt.Token)
  set_cookie tokens now =
      record {
        name = token_name;
        value = some tokens.access_token.token;
        path = "/";
        secure = secure_cookie;
        max_age = max_age_of tokens.access_token.payload.exp now;
      }
      ∷ record {
        name = refresh_token_name;
        value = some tokens.refresh_token.token;
        path = refresh_token_path;
        secure = secure_cookie;
        max_age = max_age_of tokens.refresh_token.payload.exp now;
      }
      ∷ []

  unfoldable pub clear_cookies : List (Cookie rt.Token)
  clear_cookies =
      record { name = token_name; value = none; path = "/"; secure = secure_cookie; max_age = none }
      ∷ record {
        name = refresh_token_name;
        value = none;
        path = refresh_token_path;
        secure = secure_cookie;
        max_age = none;
      }
      ∷ []

  -- The route `token`; the three texts are drawn, and `now` is the time.
  unfoldable pub token_route :
      Option Account → String → String → String → ℕ → Result Unauthorized (TokenPair rt)
  token_route none sid access_jti refresh_jti now = err not_authorized
  token_route (some user) sid access_jti refresh_jti now =
      ok (login rt user sid access_jti refresh_jti now)

  -- The route `logout`, with the cookies of its response.
  unfoldable pub logout_route :
      Option Payload → ℕ → rt.repo.Store → rt.repo.Store × List (Cookie rt.Token)
  logout_route none now s = (s, clear_cookies)
  logout_route (some jwt) now s = (logout rt jwt now s, clear_cookies)

  -- The route `refresh`; the cookies are set at `later`.
  unfoldable pub refresh_route :
      Option Account
      → String
      → String
      → String
      → (now later : ℕ) → Result Unauthorized (List (Cookie rt.Token))
  refresh_route none sid access_jti refresh_jti now later = err not_authorized
  refresh_route (some user) sid access_jti refresh_jti now later =
      ok (set_cookie (login rt user sid access_jti refresh_jti now) later)
