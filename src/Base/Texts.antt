-- ===== src/Base/Texts.antt =====
-- Texts that the code takes apart: `split`, `join` and `+` of JavaScript's strings. A separator
-- is one character, given by its code point.
use Prim.Native.Nat.{ℕ}
use Prim.Native.Char.{Char, code}
use Prim.Native.String.{String}
use Prim.Native.String.append.{nil, cons}
use mathlib.Core.Path.{◌≡◌, refl, ap, ◌∙◌}
use mathlib.Core.Logic.{inl, inr}
use mathlib.Core.Bool.{Bool, true, false, ◌&&◌, ◌||◌}
use mathlib.Core.Option.{Option, none, some}
use mathlib.Core.List.{List, [], ◌∷◌}
use native.Mathlib.Omega.{arith}
use boar_pack.Base.Tests.{
  if◌then◌else◌, ◌==◌, number_eq, Bool-cases, same_number_iff, text_eq, ==_refl,
}
pub use Prim.Native.String.{◌++◌ as ◌<>◌}

-- The character is put in front of the first part.
abbrev pub onto_first : Char → List String → List String
onto_first c [] = String.◌∷◌ c "" ∷ []
onto_first c (p ∷ ps) = String.◌∷◌ c p ∷ ps

unfoldable pub split : ℕ → String → List String
split sep String.[] = "" ∷ []
split sep (String.◌∷◌ c s) =
    let parts = split sep s in if code c == sep then "" ∷ parts else onto_first c parts

unfoldable pub join : String → List String → String
join sep [] = ""
join sep (p ∷ []) = p
join sep (p ∷ q ∷ ps) = p <> sep <> join sep (q ∷ ps)

-- The text holds the character.
abbrev pub contains_code : ℕ → String → Bool
contains_code c String.[] = false
contains_code c (String.◌∷◌ d s) = code d == c || contains_code c s

pub split-Lacks : (sep : ℕ) (s : String) → contains_code sep s ≡ false → split sep s ≡ s ∷ []
unfolding split
split-Lacks sep String.[] h = refl
split-Lacks sep (String.◌∷◌ c s) h = ground (arith, h, split-Lacks sep s (ground (arith, h)))

-- A text without the separator, the separator and any text: the first part is that text.
pub split-append :
    (sep : ℕ) (d : Char) (s t : String)
    → code d ≡ sep
    → contains_code sep s ≡ false
    → split sep (s <> String.◌∷◌ d t) ≡ s ∷ split sep t
unfolding split
split-append sep d String.[] t e h = rw (nil (String.◌∷◌ d t)) (ground (arith, e))
split-append sep d (String.◌∷◌ c s) t e h =
    rw (cons c s (String.◌∷◌ d t)) (ground (arith, h, split-append sep d s t e (ground (arith, h))))

-- Every character passes the test on its code point.
abbrev pub all_codes : (ℕ → Bool) → String → Bool
all_codes p String.[] = true
all_codes p (String.◌∷◌ c s) = p (code c) && all_codes p s

pub all_codes-Lacks :
    (p : ℕ → Bool) (sep : ℕ) (s : String)
    → p sep ≡ false
    → all_codes p s ≡ true
    → contains_code sep s ≡ false
all_codes-Lacks p sep String.[] h k = refl
all_codes-Lacks p sep (String.◌∷◌ c s) h k = elim (Bool-cases (code c == sep)) [
  | inl here ↦ ground (arith, h, k, ap p ((same_number_iff (code c) sep).0 here))
  | inr other ↦ rw other (all_codes-Lacks p sep s h (ground (arith, k)))
]

pub contains_code-append :
    (c : ℕ) (s t : String)
    → contains_code c s ≡ false
    → contains_code c t ≡ false
    → contains_code c (s <> t) ≡ false
contains_code-append c String.[] t h k = rw (nil t) k
contains_code-append c (String.◌∷◌ d s) t h k =
    rw (cons d s t) (ground (arith, h, contains_code-append c s t (ground (arith, h)) k))

pub split_at :
    (d : Char) (s t : String)
    → contains_code (code d) s ≡ false
    → split (code d) (s <> String.◌∷◌ d "" <> t) ≡ s ∷ split (code d) t
split_at d s t h =
    ap (λ x. split (code d) (s <> x)) (cons d "" t ∙ ap (λ x. String.◌∷◌ d x) (nil t))
    ∙ split-append (code d) d s t refl h

-- The rest of a text behind a prefix.
abbrev pub behind : String → String → Option String
behind String.[] s = some s
behind (String.◌∷◌ d p) String.[] = none
behind (String.◌∷◌ d p) (String.◌∷◌ c s) =
    let rest = behind p s in if code c == code d then rest else none

pub behind-append : (p s : String) → behind p (p <> s) ≡ some s
behind-append String.[] s = ap (behind "") (nil s)
behind-append (String.◌∷◌ c p) s = rw (cons c p s) (ground (arith, behind-append p s))

-- `s.replace(p, '')`: the first occurrence is taken out.
unfoldable pub without_first : String → String → String
without_first p String.[] = ""
without_first p (String.◌∷◌ c s) =
    let rest = without_first p s in
    elim (behind p (String.◌∷◌ c s)) [ some t ↦ t | none ↦ String.◌∷◌ c rest ]

-- `s.endsWith(p)`.
unfoldable pub ends_with : String → String → Bool
ends_with p String.[] = p == ""
ends_with p (String.◌∷◌ c s) = String.◌∷◌ c s == p || ends_with p s

pub ends_with-append : (s p : String) → ends_with p (s <> p) ≡ true
unfolding ends_with
ends_with-append String.[] String.[] = ap (ends_with "") (nil "")
ends_with-append String.[] (String.◌∷◌ c p) =
    rw (nil (String.◌∷◌ c p)) (ground (arith, ==_refl (String.◌∷◌ c p)))
ends_with-append (String.◌∷◌ c s) p = rw (cons c s p) (ground (arith, ends_with-append s p))
