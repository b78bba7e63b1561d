-- ===== src/Tokens/Credentials.antt =====
-- packages/users-backend/src/tokens/tokens.constants.ts: the shape of an API token, and the
-- credential of a header.
use boar_pack.Base.{
  ℕ, zero, suc, String, ◌<>◌, ◌≡◌, ◌≢◌, refl, sym, ap, ◌∙◌, Bool, true, false, not, ◌&&◌, ◌||◌,
  Option, none, some, List, [], ◌∷◌, arith, leb, ◌==◌, text_eq, number_eq, if◌then◌else◌, split,
  split-Lacks, split-append, split_at, contains_code, contains_code-append, same_number_iff, all,
  Bool-cases, Option-cases, inl, inr,
}
use text.Mathlib.TextEquality.{eq_iff}
use Prim.Native.Char.{Char, code}
use Prim.Native.String.append.{nil, cons}

-- A class of characters, by code point. The pattern ignores case.
abbrev pub Class : Type 0
Class = ℕ → Bool

abbrev pub is_hex : Class
is_hex c = (leb b'0' c && leb c b'9') || (leb b'a' c && leb c b'f') || (leb b'A' c && leb c b'F')

abbrev is_dash : Class
is_dash c = c == b'-'

abbrev is_four : Class
is_four c = c == b'4'

abbrev is_variant : Class
is_variant c = c == b'8' || c == b'9' || c == b'a' || c == b'b' || c == b'A' || c == b'B'

abbrev times : ℕ → Class → List Class → List Class
times zero p rest = rest
times (suc n) p rest = p ∷ times n p rest

-- The classes of `API_TOKEN_PATTERN` before its dot.
abbrev pub uuid_pattern : List Class
uuid_pattern = times 8 is_hex (
    is_dash
    ∷ times 4 is_hex (
        is_dash
        ∷ is_four
        ∷ times 3 is_hex (is_dash ∷ is_variant ∷ times 3 is_hex (is_dash ∷ times 12 is_hex []))))

-- What follows a text's match with the classes.
unfoldable pub after : List Class → String → Option String
after [] s = some s
after (p ∷ ps) String.[] = none
after (p ∷ ps) (String.◌∷◌ c s) = let rest = after ps s in if p (code c) then rest else none

-- The end of the pattern: a dot, then at least one character, none of them a dot.
abbrev is_secret : String → Bool
is_secret String.[] = false
is_secret (String.◌∷◌ c s) = not (contains_code b'.' (String.◌∷◌ c s))

abbrev is_dot_secret : String → Bool
is_dot_secret String.[] = false
is_dot_secret (String.◌∷◌ c s) = code c == b'.' && is_secret s

unfoldable pub is_api_token_credential : String → Bool
is_api_token_credential credential = elim (after uuid_pattern credential) [
  | some rest ↦ is_dot_secret rest
  | none ↦ false
]

append_is_filled : (c : Char) (s t : String) → ((String.◌∷◌ c s <> t) == "") ≡ false
append_is_filled c s t = rw (cons c s t) (elim (Bool-cases (String.◌∷◌ c (s <> t) == "")) [
  | inl same ↦ cc ((eq_iff (String.◌∷◌ c (s <> t)) "").0 same)
  | inr other ↦ other
])

-- The credential of a header `Bearer <credential>`: the first two parts at spaces.
module _ (to_lower_case : String → String) where
  abbrev pub bearer_of : List String → Option String
  bearer_of (scheme ∷ credential ∷ parts) =
      if to_lower_case scheme == "bearer" && not (credential == "") then some credential else none
  bearer_of _ = none

  unfoldable pub extract_bearer_credential : Option String → Option String
  extract_bearer_credential none = none
  extract_bearer_credential (some authorization) =
      if authorization == "" then none else bearer_of (split b' ' authorization)

  -- A scheme that reads `bearer` in lower case, a space and a credential without one.
  pub extract_bearer_credential_lem :
      (scheme credential : String)
      → to_lower_case scheme ≡ "bearer"
      → contains_code b' ' scheme ≡ false
      → scheme ≢ ""
      → contains_code b' ' credential ≡ false
      → credential ≢ ""
      → extract_bearer_credential (some (scheme <> " " <> credential)) ≡ some credential
  unfolding extract_bearer_credential
  extract_bearer_credential_lem String.[] credential bearer h ne k ne' = absurd (ne refl)
  extract_bearer_credential_lem (String.◌∷◌ c s) credential bearer h ne k ne' =
      let scheme = String.◌∷◌ c s in
      let parts : split b' ' (scheme <> " " <> credential) ≡ scheme ∷ credential ∷ [] =
        split_at " " scheme credential h ∙ ap (λ x. scheme ∷ x) (split-Lacks b' ' credential k) in
      let filled = append_is_filled c s (" " <> credential) in
      rw (parts, filled)
        (ground (arith, bearer, ne', eq_iff (to_lower_case scheme) "bearer", eq_iff credential ""))

after-split :
    (sep : ℕ) (ps : List Class) (s rest : String)
    → all (λ p. not (p sep)) ps ≡ true
    → after ps s ≡ some rest
    → (id : String) × (s ≡ id <> rest) × (contains_code sep id ≡ false)
unfolding after
after-split sep [] s rest h e = ("", ground (arith, e, nil rest), refl)
after-split sep (p ∷ ps) String.[] rest h e = ground (arith, e)
after-split sep (p ∷ ps) (String.◌∷◌ c s) rest h e = elim (Bool-cases (p (code c))) [
  | inl here ↦
      let (id, same, lacks) =
        after-split sep ps s rest (ground (arith, h)) (ground (arith, here, e)) in
      (
        String.◌∷◌ c id,
        ap (λ x. String.◌∷◌ c x) same ∙ sym (cons c id rest),
        elim (Bool-cases (code c == sep)) [
          | inl equal ↦ ground (arith, here, h, ap p ((same_number_iff (code c) sep).0 equal))
          | inr other ↦ ground (arith, other, lacks)
        ],
      )
  | inr fails ↦ ground (arith, fails, e)
]

pub after-append :
    (ps : List Class) (s rest t : String)
    → after ps s ≡ some rest
    → after ps (s <> t) ≡ some (rest <> t)
unfolding after
after-append [] s rest t e = ground (arith, e)
after-append (p ∷ ps) String.[] rest t e = ground (arith, e)
after-append (p ∷ ps) (String.◌∷◌ c s) rest t e = elim (Bool-cases (p (code c))) [
  | inl here ↦ rw (cons c s t, here) (after-append ps s rest t (ground (arith, here, e)))
  | inr fails ↦ ground (arith, fails, e)
]

split-secret :
    (id rest : String)
    → contains_code b'.' id ≡ false
    → is_dot_secret rest ≡ true
    → (secret : String) × (split b'.' (id <> rest) ≡ id ∷ secret ∷ []) × (secret ≢ "")
split-secret id String.[] h k = ground (arith, k)
split-secret id (String.◌∷◌ c String.[]) h k = ground (arith, k)
split-secret id (String.◌∷◌ c (String.◌∷◌ d s)) h k = (
  String.◌∷◌ d s,
  split-append b'.' c id (String.◌∷◌ d s) ((same_number_iff (code c) b'.').0 (ground (arith, k))) h
      ∙ ap (λ x. id ∷ x) (split-Lacks b'.' (String.◌∷◌ d s) (ground (arith, k))),
  λ e. cc e,
)

-- The dot cuts a credential of the pattern into two parts, and the second is not empty.
pub is_api_token_credential-split :
    (credential : String)
    → is_api_token_credential credential ≡ true
    → (id : String) × (secret : String) × (split b'.' credential ≡ id ∷ secret ∷ []) × (secret ≢ "")
unfolding is_api_token_credential
is_api_token_credential-split credential h = elim (Option-cases (after uuid_pattern credential)) [
  | inl fails ↦ ground (arith, h, fails)
  | inr (rest, match) ↦
      let (id, same, lacks) = after-split b'.' uuid_pattern credential rest refl match in
      let (secret, parts, filled) = split-secret id rest lacks (ground (arith, h, match)) in
      (id, secret, ap (split b'.') same ∙ parts, filled)
]

-- An id in the shape of a uuid, a dot and a secret without dots is in the pattern.
pub is_api_token_credential_lem :
    (id secret : String)
    → after uuid_pattern id ≡ some ""
    → secret ≢ ""
    → contains_code b'.' secret ≡ false
    → is_api_token_credential (id <> "." <> secret) ≡ true
unfolding is_api_token_credential
is_api_token_credential_lem id String.[] u ne k = absurd (ne refl)
is_api_token_credential_lem id (String.◌∷◌ c s) u ne k =
    rw
      (
        after-append uuid_pattern id "" ("." <> String.◌∷◌ c s) u,
        is_api_token_credential,
        nil,
        cons,
        nil,
      )
      (ground (arith, k))

pub is_filled : (credential : String) → is_api_token_credential credential ≡ true → credential ≢ ""
unfolding is_api_token_credential after
is_filled credential h empty = ground (arith, h, ap is_api_token_credential empty)

pub after-Lacks :
    (sep : ℕ) (s : String)
    → all (λ p. not (p sep)) uuid_pattern ≡ true
    → after uuid_pattern s ≡ some ""
    → contains_code sep s ≡ false
after-Lacks sep s h e =
    let (id, same, lacks) = after-split sep uuid_pattern s "" h e in
    ap (contains_code sep) same ∙ contains_code-append sep id "" lacks refl
