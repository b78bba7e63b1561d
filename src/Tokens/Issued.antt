-- ===== src/Tokens/Issued.antt =====
-- A token that was issued is accepted, and what is accepted names a row.
use boar_pack.Base.{
  String, ◌<>◌, ◌≡◌, ◌≢◌, refl, ap, ◌∙◌, true, false, Option, none, some, List, [], ◌∷◌, arith,
  text_eq, split, split_at, split-Lacks, ok, Bool-cases, Option-cases, inl, inr, contains_code,
  truthy_text, all_codes, all_codes-Lacks, contains_code-append,
}
use text.Mathlib.TextEquality.{eq_iff}
use boar_pack.Users.{UserEntity, without_pass}
use boar_pack.Tokens.Credentials.{
  is_hex, is_api_token_credential, is_api_token_credential_lem, after, uuid_pattern, after-Lacks,
}
use boar_pack.Tokens.Guard.{Request, Alternative, can_activate, can_activate_token}
use boar_pack.Tokens.Service.{
  Token, TokenData, TokenUser, Runtime, token_data, create_one, validate, validate_parts, principal,
}

module _ (rt : Runtime) where
  open rt use {Store, users, find_one, create_one_base, bcrypt_hash, bcrypt_compare, uuid_validate}

  truthy_lem : (s : String) → s ≢ "" → truthy_text (some s) ≡ true
  truthy_lem s ne = ground (arith, ne, eq_iff s "")

  validate-find :
      (id raw : String) (s : Store) (token : Token)
      → after uuid_pattern id ≡ some ""
      → raw ≢ ""
      → contains_code b'.' raw ≡ false
      → find_one id s ≡ some token
      → validate rt (id <> "." <> raw) s ≡ principal rt raw (some token)
  unfolding validate
  validate-find id raw s token u ne k found =
      let parts : split b'.' (id <> "." <> raw) ≡ id ∷ raw ∷ [] =
        split_at "." id raw (after-Lacks b'.' id refl u)
        ∙ ap (λ x. id ∷ x) (split-Lacks b'.' raw k) in
      rw (parts, rt.uuid_law id u, truthy_lem raw ne, found) refl

  -- The value of a token that was made for a known user, from random bytes in hexadecimal, is
  -- accepted: it stands for that user without the password. It is also accepted after another
  -- token was made, which got another id.
  pub create_one-validate :
      (user_id name raw salt : String) (user : UserEntity) (s : Store) (next : TokenData)
      → users user_id ≡ some user
      → all_codes is_hex raw ≡ true
      → raw ≢ ""
      → (create_one_base next (create_one rt user_id name raw salt s).1).0
        ≢ (create_one_base (token_data rt user_id name raw salt) s).0
      → let (value, s') = create_one rt user_id name raw salt s in
        (token_id : String) × (validate rt value s'
          ≡ ok (record { user = without_pass user; token_id = token_id }))
        × (validate rt value (create_one_base next s').1
            ≡ ok (record { user = without_pass user; token_id = token_id }))
  unfolding create_one
  create_one-validate user_id name raw salt user s next known hex ne fresh =
      let row = token_data rt user_id name raw salt in
      let id = (create_one_base row s).0 in
      let s' = (create_one_base row s).1 in
      let u = rt.create_id row s in
      let found = rt.create_find row s user known in
      let lacks = all_codes-Lacks is_hex b'.' raw refl hex in
      let right = rt.compare_hash raw salt in
      (
        id,
        validate-find id raw s' _ u ne lacks found ∙ rw right refl,
        validate-find id raw (create_one_base next s').1 _ u ne lacks
              (rt.create_keeps next s' id _ found fresh)
            ∙ rw right refl,
      )

  -- With API tokens as the only alternative, the guard hands a request whose header has the value
  -- of a token that was made, behind `Bearer` and a space, to the guard of the tokens.
  pub create_one-can_activate :
      {R : Type 0} (allow : R) (jwt : Request → R) (to_lower_case : String → String)
      (a : Alternative R) (user_id name raw salt : String) (s : Store)
      → ((c : String) → a.matches c ≡ is_api_token_credential c)
      → to_lower_case "Bearer" ≡ "bearer"
      → all_codes is_hex raw ≡ true
      → raw ≢ ""
      → let request : Request = record {
        authorization = some ("Bearer" <> " " <> (create_one rt user_id name raw salt s).0);
      } in
        can_activate allow jwt to_lower_case false (a ∷ []) request ≡ a.can_activate request
  unfolding create_one
  create_one-can_activate allow jwt to_lower_case a user_id name raw salt s tokens bearer hex ne =
      let row = token_data rt user_id name raw salt in
      let id = (create_one_base row s).0 in
      let u = rt.create_id row s in
      can_activate_token allow jwt to_lower_case a "Bearer" (id <> "." <> raw) tokens bearer refl
        (cc)
        (contains_code-append b' ' id ("." <> raw) (after-Lacks b' ' id refl u)
          (contains_code-append b' ' "." raw refl (all_codes-Lacks is_hex b' ' raw refl hex)))
        (is_api_token_credential_lem id raw u ne (all_codes-Lacks is_hex b'.' raw refl hex))

  -- The parts of a token that is accepted.
  abbrev pub IsAccepted : List String → Store → TokenUser → Type 0
  IsAccepted parts s u =
      (id : String) × (secret : String) × (rest : List String) × (row : Token)
      × (owner : UserEntity) × (parts ≡ id ∷ secret ∷ rest)
      × (find_one id s ≡ some row)
      × (bcrypt_compare secret row.hash ≡ true)
      × (row.user ≡ some owner)
      × (u ≡ record { user = without_pass owner; token_id = row.id })

  principal-IsAccepted :
      (id secret : String) (rest : List String) (s : Store) (u : TokenUser) (found : Option Token)
      → find_one id s ≡ found
      → principal rt secret found ≡ ok u
      → IsAccepted (id ∷ secret ∷ rest) s u
  principal-IsAccepted id secret rest s u none e h = ground (arith, h)
  principal-IsAccepted id secret rest s u (some row) e h =
      elim (Bool-cases (bcrypt_compare secret row.hash)) [
        | inl same ↦ elim (Option-cases row.user) [
          | inl missing ↦ ground (arith, same, missing, h)
          | inr (owner, there) ↦
              (id, secret, rest, row, owner, refl, e, same, there, ground (arith, same, there, h))
        ]
        | inr differ ↦ ground (arith, differ, h)
      ]

  validate_parts-IsAccepted :
      (parts : List String) (token : String) (s : Store) (u : TokenUser)
      → validate_parts rt parts token s ≡ ok u
      → IsAccepted parts s u
  validate_parts-IsAccepted [] token s u h = ground (arith, h)
  validate_parts-IsAccepted (id ∷ []) token s u h = ground (arith, h)
  validate_parts-IsAccepted (id ∷ secret ∷ rest) token s u h =
      principal-IsAccepted id secret rest s u (find_one id s) refl (ground (arith, h))

  -- Of a token that is accepted, what stands before its first dot finds a row, what stands behind it,
  -- up to a second dot or the end, is the secret of that row, and the token stands for the user of the
  -- row without the password, under the id of the row.
  pub validate-IsAccepted :
      (token : String) (s : Store) (u : TokenUser)
      → validate rt token s ≡ ok u
      → IsAccepted (split b'.' token) s u
  unfolding validate
  validate-IsAccepted token s u h = validate_parts-IsAccepted (split b'.' token) token s u h
