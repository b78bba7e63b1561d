-- ===== src/Auth/Accounts.antt =====
-- Users and their credentials: packages/users-backend/src/users/users.service.ts, `validateUser` and
-- `validateUserByEmail` of auth/auth.service.ts, and the strategies of a login by password and by
-- the social networks. The table of users, bcrypt, `toLowerCase` and `trim` are parameters.
use boar_pack.Base.{
  String, ◌≡◌, Bool, true, false, Option, none, some, List, [], ◌∷◌, ◌==◌, text_eq, if◌then◌else◌,
  Result, ok, err, truthy_text,
}
use boar_pack.Users.{User, UserEntity, without_pass}

-- `find_email` is a query for one row with the address, and `save` inserts the row.
pub record Accounts : Type 1 where
  pub Table : Type 0
  pub find_email : String → Table → Option UserEntity
  pub save : UserEntity → Table → Table
  pub to_lower_case : String → String
  pub trim : String → String
  pub bcrypt_hash : String → String → String
  pub bcrypt_compare : String → String → Bool
  pub find_save :
      (u : UserEntity) (s : Table)
      → find_email u.email s ≡ none
      → find_email u.email (save u s) ≡ some u
  pub find_other :
      (email : String) (u : UserEntity) (s : Table)
      → (u.email == email) ≡ false
      → find_email email (save u s) ≡ find_email email s
  pub lower_lower : (s : String) → to_lower_case (to_lower_case s) ≡ to_lower_case s
  pub compare_hash : (p salt : String) → bcrypt_compare p (bcrypt_hash p salt) ≡ true
  pub hash_filled : (p salt : String) → truthy_text (some (bcrypt_hash p salt)) ≡ true

-- What a strategy reports: an unauthorized or an internal server error.
pub data LoginError : Type 0 where
  unauthorized internal : LoginError

module _ (a : Accounts) where
  open a use {Table, find_email, save, to_lower_case, trim, bcrypt_compare}

  unfoldable pub find_by_email : String → Table → Option UserEntity
  find_by_email email s = find_email (to_lower_case email) s

  abbrev pub normalized : UserEntity → UserEntity
  normalized u = if u.email == "" then u else record u { email = to_lower_case u.email }

  -- `create`.
  unfoldable pub create : UserEntity → Table → UserEntity × Table
  create u s = (normalized u, save (normalized u) s)

  abbrev pub hash_or_empty : Option String → String
  hash_or_empty (some hash) = hash
  hash_or_empty none = ""

  abbrev pub checked_password : String → Option UserEntity → Option User
  checked_password pass none = none
  checked_password pass (some u) =
      if truthy_text u.pass
      then (if bcrypt_compare pass (hash_or_empty u.pass) then some (without_pass u) else none)
      else none

  unfoldable pub validate_user : String → String → Table → Option User
  validate_user email pass s = checked_password pass (find_by_email email s)

  abbrev pub stripped : Option UserEntity → Option User
  stripped none = none
  stripped (some u) = some (without_pass u)

  unfoldable pub validate_user_by_email : Option String → Table → Option User
  validate_user_by_email none s = none
  validate_user_by_email (some email) s =
      if email == "" then none else stripped (find_by_email email s)

  abbrev pub or_unauthorized : Option User → Result LoginError User
  or_unauthorized (some u) = ok u
  or_unauthorized none = err unauthorized

  -- `LocalAuthStrategy.validate`.
  unfoldable pub validate_local : String → String → Table → Result LoginError User
  validate_local email password s =
      or_unauthorized (validate_user (to_lower_case (trim email)) password s)

  -- `validate` of the strategies of Google and of Yandex, on the addresses of the profile. Without
  -- one, reading the first throws.
  unfoldable pub validate_profile : List String → Table → Result LoginError User
  validate_profile [] s = err internal
  validate_profile (email ∷ emails) s = or_unauthorized (validate_user_by_email (some email) s)

  -- `MSAuthStrategy.validate`, on the claims `email` and `upn` of the decoded token; a token that
  -- cannot be decoded has none to read.
  unfoldable pub validate_ms :
      Option (Option String × Option String) → Table → Result LoginError User
  validate_ms none s = err internal
  validate_ms (some (email, upn)) s =
      or_unauthorized (validate_user_by_email (if truthy_text email then email else upn) s)
