-- ===== src/Tokens/Service.antt =====
-- Issuing and checking an API token: `createOne` of
-- packages/users-backend/src/tokens/my-tokens.controller.ts and `validate` of
-- packages/users-backend/src/tokens/tokens-auth.strategy.ts. Bcrypt, Joi's test of a uuid and the
-- table behind the CRUD service are parameters.
use boar_pack.Base.{
  String, ◌<>◌, ◌≡◌, ◌≢◌, Bool, true, not, ◌||◌, Option, none, some, List, [], ◌∷◌, text_eq,
  if◌then◌else◌, split, Result, ok, err, truthy_text,
}
use boar_pack.Users.{User, UserEntity, without_pass}
use boar_pack.Tokens.Credentials.{after, uuid_pattern}

-- A row of `tokens` with its relation `user`, which is missing where the user was deleted.
pub record Token : Type 0 where
  pub id : String
  pub name : String
  pub hash : String
  pub user : Option UserEntity

-- What `createOne` hands to the service.
pub record TokenData : Type 0 where
  pub user_id : String
  pub name : String
  pub hash : String

-- The user of a request that a token authenticates.
pub record TokenUser : Type 0 where
  pub user : User
  pub token_id : String

pub data Refusal : Type 0 where
  unauthorized : String → Refusal
  type_error : Refusal

-- `create_one_base` answers the id of the new row; `find_one` reads a row with its user, by an id in
-- any spelling.
pub record Runtime : Type 1 where
  pub Store : Type 0
  pub users : String → Option UserEntity
  pub find_one : String → Store → Option Token
  pub create_one_base : TokenData → Store → String × Store
  pub bcrypt_hash : String → String → String
  pub bcrypt_compare : String → String → Bool
  pub uuid_validate : String → Bool
  pub create_id :
      (row : TokenData) (s : Store) → after uuid_pattern (create_one_base row s).0 ≡ some ""
  pub create_find :
      (row : TokenData) (s : Store) (user : UserEntity)
      → users row.user_id ≡ some user
      → let (id, s') = create_one_base row s in
        find_one id s'
        ≡ some (record { id = id; name = row.name; hash = row.hash; user = some user })
  pub create_keeps :
      (row : TokenData) (s : Store) (id : String) (token : Token)
      → find_one id s ≡ some token
      → (create_one_base row s).0 ≢ id
      → find_one id (create_one_base row s).1 ≡ some token
  pub compare_hash : (raw salt : String) → bcrypt_compare raw (bcrypt_hash raw salt) ≡ true
  pub uuid_law : (id : String) → after uuid_pattern id ≡ some "" → uuid_validate id ≡ true

module _ (rt : Runtime) where
  open rt use {Store, find_one, create_one_base, bcrypt_hash, bcrypt_compare, uuid_validate}

  -- The row that `createOne` asks for. `raw` are the random bytes in hexadecimal, `salt` the salt
  -- that bcrypt draws.
  abbrev pub token_data : (user_id name raw salt : String) → TokenData
  token_data user_id name raw salt = record {
    user_id = user_id;
    name = name;
    hash = bcrypt_hash raw salt;
  }

  -- `createOne`: the value that is shown once, and the table.
  unfoldable pub create_one : (user_id name raw salt : String) → Store → String × Store
  create_one user_id name raw salt s =
      let (id, s') = create_one_base (token_data user_id name raw salt) s in (id <> "." <> raw, s')

  -- The first two parts of the token; the second may be missing.
  abbrev pub id_of : List String → String
  id_of [] = ""
  id_of (id ∷ parts) = id

  abbrev pub hash_of : List String → Option String
  hash_of (id ∷ hash ∷ parts) = some hash
  hash_of _ = none

  abbrev pub or_empty : Option String → String
  or_empty (some s) = s
  or_empty none = ""

  -- The principal of a row, if the secret is that of the row. The user is taken apart without a
  -- test that there is one.
  abbrev pub of_user : String → Option UserEntity → Result Refusal TokenUser
  of_user id none = err type_error
  of_user id (some u) = ok (record { user = without_pass u; token_id = id })

  abbrev pub principal : String → Option Token → Result Refusal TokenUser
  principal hash none = err (unauthorized "Invalid token")
  principal hash (some token) =
      if bcrypt_compare hash token.hash
      then of_user token.id token.user
      else err (unauthorized "Invalid token")

  -- `validate` on the parts of the token.
  abbrev pub validate_parts : List String → String → Store → Result Refusal TokenUser
  validate_parts parts token s =
      if not (uuid_validate (id_of parts)) || not (truthy_text (hash_of parts))
      then err (unauthorized ("Invalid token " <> token))
      else principal (or_empty (hash_of parts)) (find_one (id_of parts) s)

  -- `validate`, or the exception that it throws.
  unfoldable pub validate : String → Store → Result Refusal TokenUser
  validate token s = validate_parts (split b'.' token) token s
