-- ===== src/Imports/Order.antt =====
-- The order in which JavaScript visits the keys of an object: those that are indices of an array by
-- their value, then the others as they were added. It decides the order of the changes that
-- packages/common-frontend/src/components/Table/useImportExport.tsx finds.
use boar_pack.Base.{
  ℕ, String, Bool, false, not, ◌&&◌, ◌||◌, Option, none, some, List, [], ◌∷◌, ◌++◌, keep, text_eq,
  ◌==◌, number_eq, ltb, is_some, if◌then◌else◌, All, All-append, Bool-cases, inl, inr,
}
use Prim.Native.Char.{code}
use boar_pack.Workers.Config.{is_digits, digits_from}

abbrev pub starts_with_zero : String → Bool
starts_with_zero String.[] = false
starts_with_zero (String.◌∷◌ c s) = code c == b'0'

-- The index that a key is: digits, without leading zeros, below the greatest length of an array.
unfoldable pub index_of : String → Option ℕ
index_of key =
    if is_digits key
      && (key == "0" || not (starts_with_zero key))
      && ltb (digits_from 0 key) 4294967295
    then some (digits_from 0 key)
    else none

abbrev pub index_or_zero : String → ℕ
index_or_zero key = elim (index_of key) [ some n ↦ n | none ↦ 0 ]

module _ {V : Type 0} where
  abbrev pub place : ℕ → String × V → List (String × V) → List (String × V)
  place n e [] = e ∷ []
  place n e (f ∷ m) = if ltb n (index_or_zero f.0) then e ∷ f ∷ m else f ∷ place n e m

  abbrev pub place_indexed : Option ℕ → String × V → List (String × V) → List (String × V)
  place_indexed none e m = m
  place_indexed (some n) e m = place n e m

  abbrev pub by_index : List (String × V) → List (String × V)
  by_index [] = []
  by_index (e ∷ m) = place_indexed (index_of e.0) e (by_index m)

  unfoldable pub object_entries : List (String × V) → List (String × V)
  object_entries m = by_index m ++ keep (λ e. not (is_some (index_of e.0))) m

  module _ (P : String × V → Type 0) where
    All-place :
        (n : ℕ) (e : String × V) (m : List (String × V)) → P e → All P m → All P (place n e m)
    All-place n e [] h hs = (h, tt)
    All-place n e (f ∷ m) h (g, hs) = elim (Bool-cases (ltb n (index_or_zero f.0))) [
      | inl before ↦ rw before (h, (g, hs))
      | inr later ↦ rw later (g, All-place n e m h hs)
    ]

    All-place_indexed :
        (index : Option ℕ) (e : String × V) (m : List (String × V))
        → P e
        → All P m
        → All P (place_indexed index e m)
    All-place_indexed none e m h hs = hs
    All-place_indexed (some n) e m h hs = All-place n e m h hs

    All-by_index : (m : List (String × V)) → All P m → All P (by_index m)
    All-by_index [] hs = tt
    All-by_index (e ∷ m) (h, hs) =
        All-place_indexed (index_of e.0) e (by_index m) h (All-by_index m hs)

    All-keep : (p : String × V → Bool) (m : List (String × V)) → All P m → All P (keep p m)
    All-keep p [] hs = tt
    All-keep p (e ∷ m) (h, hs) = elim (Bool-cases (p e)) [
      | inl kept ↦ rw kept (h, All-keep p m hs)
      | inr left ↦ rw left (All-keep p m hs)
    ]

    pub All-object_entries : (m : List (String × V)) → All P m → All P (object_entries m)
    unfolding object_entries
    All-object_entries m hs =
        All-append P (by_index m) _ (All-by_index m hs)
          (All-keep (λ e. not (is_some (index_of e.0))) m hs)
