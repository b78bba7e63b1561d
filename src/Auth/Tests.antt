-- ===== src/Auth/Tests.antt =====
-- The session code over a table that is a list, and the theorems at concrete inputs.
use boar_pack.Base.{
  ℕ, String, ◌+◌, ◌/◌, ◌≡◌, text_apart, ◌≤◌, refl, true, false, Option, none, some, List, [], ◌∷◌,
  ◌==◌, text_eq, if◌then◌else◌, arith, ltb, leb, any, keep, ok, err, Result, ◌<>◌, truthy_text,
  Bool-cases, inl, inr, ==_refl,
}
use text.Mathlib.TextEquality.{eq_iff}
use Prim.Native.String.append.{cons}
use boar_pack.Users.{User, user, UserEntity}
use boar_pack.Auth.Accounts.{Accounts, LoginError}
use boar_pack.Auth.Payload.{RevokedToken, Payload, access, refresh}
use boar_pack.Auth.Revoked.{Where, Repository, meets_any, insert_rows, is_token_revoked}
use boar_pack.Auth.Cookies.{Cookie, Jar, is_cookie, kept_value, refresh_route}
use boar_pack.Auth.Cleared.{HeldUntil, refresh_route-HeldUntil}
use boar_pack.Auth.Runtime.{Runtime, stamped}
use boar_pack.Auth.Service.{Account, login, logout, sign}
use boar_pack.Auth.Strategies.{
  token_revoked, invalid_token_type, check_refresh, validate_access, validate_refresh,
}
use boar_pack.Auth.History.{log_out, clean, run}
use boar_pack.Auth.Rotation.{validate_refresh_once}
use boar_pack.Auth.Ending.{Drawn, logout-ends_access, logout-ends_refresh}
use boar_pack.Auth.Issuing.{sign_confusion, sign-exp_bounds, login-accepted}
use boar_pack.Auth.Race.{schedule, both_waiting, answered, refresh_race}

abbrev count_rows : List Where → List RevokedToken → ℕ
count_rows ws [] = 0
count_rows ws (r ∷ rows) = (if meets_any ws r then 1 else 0) + count_rows ws rows

count_rows_law :
    (ws : List Where) (rows : List RevokedToken)
    → ltb 0 (count_rows ws rows) ≡ any (meets_any ws) rows
count_rows_law ws [] = refl
count_rows_law ws (r ∷ rows) = ground (arith, count_rows_law ws rows)

abbrev list_table : Repository
list_table = record {
  Store = List RevokedToken;
  rows = λ s. s;
  insert_or_ignore = insert_rows;
  count = count_rows;
  delete_expired = λ now s. keep (λ r. leb now r.expires_at) s;
  insert_law = λ ts s p. refl;
  count_law = count_rows_law;
  delete_law = λ now s p. refl;
}

-- A token that carries what was signed.
record Opened : Type 0 where
  payload : Payload
  lifetime : ℕ
  jti : String
  signed : ℕ

abbrev minutes : String → ℕ
minutes text = if text == "15m" then 900000 else 3600000

abbrev open_token : Opened → ℕ → Option Payload
open_token t now =
    if ltb (now / 1000) (t.signed / 1000 + t.lifetime / 1000)
    then some (stamped t.payload t.lifetime t.signed t.jti)
    else none

abbrev ann : User
ann = record { id = "u1"; email = "ann@example.com"; role = user; permissions = [] }

abbrev ann_account : Account
ann_account = record { id = "u1"; email = "ann@example.com" }

abbrev server : Runtime
server = record {
  repo = list_table;
  Token = Opened;
  ms = minutes;
  access_expiration = "15m";
  refresh_expiration = "1h";
  sign = λ p e j t. record { payload = p; lifetime = minutes e; jti = j; signed = t };
  verify = open_token;
  find_user = λ id. if id == "u1" then some ann else none;
  verify_law = λ p e j signed now. refl;
}

abbrev spare : Payload
spare = record {
  email = none;
  sub = "u1";
  iat = none;
  exp = none;
  jti = none;
  sid = some "s";
  type = some refresh;
}

abbrev ann_access : Payload
ann_access = record spare {
  email = some "ann@example.com";
  iat = some 1;
  exp = some 901;
  jti = some "a";
  type = some access;
}

abbrev ann_refresh : Payload
ann_refresh = record spare { iat = some 1; exp = some 3601; jti = some "r" }

validate_refresh_once_example :
    (validate_refresh server ann_refresh 9000 (
      run server
        (clean 5000 ∷ log_out ann_access 6000 ∷ [])
        (validate_refresh server ann_refresh 2000 []).0)).1
    ≡ err token_revoked
unfolding check_refresh is_token_revoked
validate_refresh_once_example =
    validate_refresh_once server ann_refresh "r" 2000 9000
      (clean 5000 ∷ log_out ann_access 6000 ∷ []) [] refl (omega arith)

Drawn-at_login : Drawn server "s" "a" "r" 1000 []
Drawn-at_login = record {
  sid_given = text_apart "s" "" refl;
  access_given = text_apart "a" "" refl;
  refresh_given = text_apart "r" "" refl;
  apart = text_apart "a" "s" refl;
  own = λ e. cc;
}

logout-ends_access_example :
    validate_access server ann_access
      (run server (clean 7000 ∷ []) (logout server ann_access 5000 []))
    ≡ err token_revoked
unfolding login
logout-ends_access_example =
    logout-ends_access server ann_account "s" "a" "r" 1000 5000 ann_access [] Drawn-at_login
      (omega arith) refl (clean 7000 ∷ []) 8000 ann_access (omega arith) (omega arith) refl

logout-ends_refresh_example :
    validate_refresh server ann_refresh 8000
      (run server (clean 7000 ∷ []) (logout server ann_access 5000 []))
    ≡ (run server (clean 7000 ∷ []) (logout server ann_access 5000 []), err token_revoked)
unfolding login
logout-ends_refresh_example =
    logout-ends_refresh server ann_account "s" "a" "r" 1000 5000 ann_access [] Drawn-at_login
      (omega arith) refl (clean 7000 ∷ []) 8000 ann_refresh (omega arith) refl

sign_confusion_example :
    validate_access server (stamped spare 3600000 1000 "x") [] ≡ err invalid_token_type
unfolding sign
sign_confusion_example =
    sign_confusion server refresh spare (stamped spare 3600000 1000 "x") "x" 1000 2000 [] refl

access_to_refresh :
    validate_refresh server (stamped (record spare { type = some access }) 900000 1000 "x") 2000 []
    ≡ ([], err invalid_token_type)
unfolding sign
access_to_refresh =
    sign_confusion server access spare
      (stamped (record spare { type = some access }) 900000 1000 "x") "x" 1000 2000 [] refl

exp_shown_late :
    (told : ℕ) × (real : ℕ) × ((sign server spare access "x" 1500).payload.exp ≡ some told)
    × ((stamped (record spare { type = some access }) 900000 1500 "x").exp ≡ some real)
    × (real ≤ told)
    × (told ≤ real + 1)
unfolding sign
exp_shown_late =
    sign-exp_bounds server spare (stamped (record spare { type = some access }) 900000 1500 "x")
      access "x" 1500 2000 refl

login-accepted_example :
    let pair = login server ann_account "s" "a" "r" 1000 in
    (p : Payload) × (q : Payload) × (server.verify pair.access_token.token 2000 ≡ some p)
    × (validate_access server p [] ≡ ok ann)
    × (server.verify pair.refresh_token.token 2000 ≡ some q)
    × ((validate_refresh server q 2000 []).1 ≡ ok ann)
login-accepted_example =
    login-accepted server ann_account ann "s" "a" "r" 1000 2000 [] refl (text_apart "a" "" refl)
      (text_apart "r" "" refl) refl refl refl (omega arith) (omega arith)

refresh_race_example :
    let overlapped =
      schedule server ann_refresh 2000
        (false ∷ true ∷ true ∷ false ∷ [])
        (both_waiting server ann_refresh 2000 []) in
    let apart =
      schedule server ann_refresh 2000
        (false ∷ false ∷ true ∷ true ∷ [])
        (both_waiting server ann_refresh 2000 []) in
    ((overlapped.first ≡ answered (ok ann)) × (overlapped.second ≡ answered (ok ann)))
    × (apart.first ≡ answered (ok ann))
    × (apart.second ≡ answered (err token_revoked))
unfolding check_refresh is_token_revoked
refresh_race_example = refresh_race server ann_refresh 2000 false true "r" ann [] refl refl

-- Users in a list; a hash is the password behind a sign.
abbrev find_user_row : String → List UserEntity → Option UserEntity
find_user_row email [] = none
find_user_row email (u ∷ s) = if u.email == email then some u else find_user_row email s

sign_filled : (p : String) → truthy_text (some ("$" <> p)) ≡ true
sign_filled p = rw (cons "$" "" p) (elim (Bool-cases (String.◌∷◌ "$" ("" <> p) == "")) [
  | inl same ↦ cc ((eq_iff (String.◌∷◌ "$" ("" <> p)) "").0 same)
  | inr other ↦ rw other refl
])

abbrev lower : String → String
lower s = if s == "Bo@A.org" then "bo@a.org" else s

find_saved :
    (u : UserEntity) (s : List UserEntity)
    → find_user_row u.email s ≡ none
    → find_user_row u.email (u ∷ s) ≡ some u
find_saved u s free = rw (==_refl u.email) refl

lower_twice : (s : String) → lower (lower s) ≡ lower s
lower_twice s = ground (arith, eq_iff s "Bo@A.org")

abbrev accounts : Accounts
accounts = record {
  Table = List UserEntity;
  find_email = find_user_row;
  save = λ u s. u ∷ s;
  to_lower_case = lower;
  trim = λ s. s;
  bcrypt_hash = λ p salt. "$" <> p;
  bcrypt_compare = λ p hash. ("$" <> p) == hash;
  find_save = find_saved;
  find_other = λ email u s other. rw other refl;
  lower_lower = lower_twice;
  compare_hash = λ p salt. ==_refl ("$" <> p);
  hash_filled = λ p salt. sign_filled p;
}

abbrev bo : UserEntity
bo = record {
  id = "u2";
  email = "Bo@A.org";
  role = user;
  permissions = [];
  pass = some ("$" <> "secret");
}

abbrev nobody : List UserEntity
nobody = []

abbrev bo_in : Result LoginError User
bo_in = ok (record { id = "u2"; email = "bo@a.org"; role = user; permissions = [] })

-- A jar that is a function.
abbrev browser : Jar server.Token
browser = record {
  Cookies = String → String → Option server.Token;
  value = λ name path s. s name path;
  receive = λ c s. (λ name path. if is_cookie name path c then kept_value c else s name path);
  receive_law = λ name path c s. refl;
}

abbrev holding : String → String → Option server.Token
holding name path = some (server.sign ann_access "15m" "a1" 0)

refresh_route-HeldUntil_example :
    (a b : Cookie server.Token) × (refresh_route server "/api/auth/refresh" true
        (some ann_account)
        "s1"
        "a1"
        "r1"
        1000
        1300
      ≡ ok (a ∷ b ∷ []))
    × HeldUntil (1000 + server.ms server.access_expiration) 1300 a
    × HeldUntil (1000 + server.ms server.refresh_expiration) 1300 b
refresh_route-HeldUntil_example =
    refresh_route-HeldUntil server "/api/auth/refresh" true ann_account "s1" "a1" "r1" 1000 1300
