-- ===== src/Tokens/Tests.antt =====
-- Tokens in a table that alternates between two ids; the hash of a secret is the secret.
use boar_pack.Base.{
  String, ◌<>◌, ◌≡◌, ◌≢◌, refl, Bool, true, false, Option, none, some, List, [], ◌∷◌, ◌==◌, text_eq,
  if◌then◌else◌, arith, split, ok, err, ==_refl, Bool-cases, inl, inr, ap, is_some, text_apart,
}
use text.Mathlib.TextEquality.{eq_iff}
use boar_pack.Users.{user, UserEntity, without_pass}
use boar_pack.Tokens.Credentials.{after, uuid_pattern, is_api_token_credential}
use boar_pack.Tokens.Guard.{Request, Alternative, can_activate}
use boar_pack.Tokens.Service.{Token, TokenData, type_error, Runtime, create_one, validate}
use boar_pack.Tokens.Issued.{
  create_one-validate, create_one-can_activate, validate-IsAccepted, IsAccepted,
}

abbrev id_a : String
id_a = "0f8fad5b-d9cb-469f-a165-70867728950e"

abbrev id_b : String
id_b = "7c9e6679-7425-40de-944b-e07fc1f90ae7"

abbrev ann : UserEntity
ann = record { id = "ann"; email = "ann@a.org"; role = user; permissions = []; pass = some "h" }

abbrev next_id : List Token → String
next_id [] = id_a
next_id (t ∷ s) = if t.id == id_a then id_b else id_a

abbrev lookup : String → List Token → Option Token
lookup id [] = none
lookup id (t ∷ s) = if t.id == id then some t else lookup id s

abbrev row_of : String → TokenData → Token
row_of id row = record { id = id; name = row.name; hash = row.hash; user = some ann }

new_id : (s : List Token) → after uuid_pattern (next_id s) ≡ some ""
unfolding after
new_id [] = refl
new_id (t ∷ s) = elim (Bool-cases (t.id == id_a)) [
  | inl here ↦ rw here refl
  | inr other ↦ rw other refl
]

keeps :
    (row : TokenData) (s : List Token) (id : String) (t : Token)
    → lookup id s ≡ some t
    → next_id s ≢ id
    → lookup id (row_of (next_id s) row ∷ s) ≡ some t
keeps row s id t h ne = ground (arith, h, ne, eq_iff (next_id s) id)

finds :
    (row : TokenData) (s : List Token) (u : UserEntity)
    → some ann ≡ some u
    → lookup (next_id s) (row_of (next_id s) row ∷ s)
      ≡ some (record { id = next_id s; name = row.name; hash = row.hash; user = some u })
finds row s u known = ground (arith, known, eq_iff (next_id s) (next_id s))

abbrev runtime : Runtime
runtime = record {
  Store = List Token;
  users = λ id. some ann;
  find_one = lookup;
  create_one_base = λ row s. (next_id s, row_of (next_id s) row ∷ s);
  bcrypt_hash = λ raw salt. raw;
  bcrypt_compare = λ raw hash. raw == hash;
  uuid_validate = λ id. is_some (after uuid_pattern id);
  create_id = λ row s. new_id s;
  create_find = finds;
  create_keeps = keeps;
  compare_hash = λ raw salt. ==_refl raw;
  uuid_law = λ id h. ap is_some h;
}

abbrev no_rows : List Token
no_rows = []

abbrev second : TokenData
second = record { user_id = "ann"; name = "second"; hash = "00" }

create_one-validate_example :
    (token_id : String) × (validate runtime
        (id_a <> "." <> "beef")
        (create_one runtime "ann" "first" "beef" "s" no_rows).1
      ≡ ok (record { user = without_pass ann; token_id = token_id }))
    × (validate runtime
          (id_a <> "." <> "beef")
          (runtime.create_one_base second (create_one runtime "ann" "first" "beef" "s" no_rows).1).1
        ≡ ok (record { user = without_pass ann; token_id = token_id }))
unfolding create_one
create_one-validate_example =
    create_one-validate runtime "ann" "first" "beef" "s" ann no_rows second refl refl (cc)
      (text_apart id_b id_a refl)

validate-IsAccepted_example :
    IsAccepted runtime
      (split b'.' (id_a <> "." <> "00"))
      (row_of id_a second ∷ [])
      (record { user = without_pass ann; token_id = id_a })
unfolding validate after split
validate-IsAccepted_example =
    validate-IsAccepted runtime (id_a <> "." <> "00") (row_of id_a second ∷ [])
      (record { user = without_pass ann; token_id = id_a }) refl

-- The API tokens answer true, the JWT guard false.
abbrev api_tokens : Alternative Bool
api_tokens = record { key = 1; matches = is_api_token_credential; can_activate = λ request. true }

abbrev by_jwt : Request → Bool
by_jwt request = false

abbrev lower : String → String
lower s = if s == "Bearer" then "bearer" else s

new_token_dispatched :
    can_activate true by_jwt lower false (api_tokens ∷ []) (record {
      authorization =
          some ("Bearer" <> " " <> (create_one runtime "ann" "first" "beef" "s" no_rows).0);
    })
    ≡ true
new_token_dispatched =
    create_one-can_activate runtime true by_jwt lower api_tokens "ann" "first" "beef" "s" no_rows
      (λ c. refl) refl refl (cc)

abbrev with_jwt : Request
with_jwt = record { authorization = some "Bearer aa.bb.cc" }

jwt_of_three : can_activate true by_jwt lower false (api_tokens ∷ []) with_jwt ≡ false
unfolding can_activate split is_api_token_credential after
jwt_of_three = refl

-- The token of a deleted user is answered by an internal error.
deleted_user :
    validate runtime
      (id_a <> "." <> "00")
      (record { id = id_a; name = "a"; hash = "00"; user = none } ∷ [])
    ≡ err type_error
unfolding validate split after
deleted_user = refl
