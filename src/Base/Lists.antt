-- ===== src/Base/Lists.antt =====
-- Lists: tests over the elements, membership by a Boolean test, predicates on all elements.
use Prim.Native.Nat.{ℕ, zero, suc, ◌+◌, ◌≤◌}
use mathlib.Core.Path.{◌≡◌, refl, ap}
use mathlib.Core.Logic.{inl, inr}
use mathlib.Core.Bool.{Bool, true, false, ◌&&◌, ◌||◌}
use mathlib.Core.Option.{Option, none, some}
use mathlib.Core.List.{List, [], ◌∷◌, ◌++◌}
use native.Mathlib.Omega.{arith}
use boar_pack.Base.Tests.{if◌then◌else◌, ◌==◌, Eq, Bool-cases}

module _ {ℓ} {A : Type ℓ} where
  abbrev pub length : List A → ℕ
  length [] = 0
  length (x ∷ xs) = suc (length xs)

  pub length-append : (xs ys : List A) → length (xs ++ ys) ≡ length xs + length ys
  length-append [] ys = omega arith
  length-append (x ∷ xs) ys = omega (arith, length-append xs ys)

  abbrev pub get_or : List A → ℕ → A → A
  get_or [] i d = d
  get_or (x ∷ xs) zero d = x
  get_or (x ∷ xs) (suc i) d = get_or xs i d

  -- `Array.prototype.some`, `every`, `filter` and `find`.
  abbrev pub any : (A → Bool) → List A → Bool
  any p [] = false
  any p (x ∷ xs) = p x || any p xs

  abbrev pub all : (A → Bool) → List A → Bool
  all p [] = true
  all p (x ∷ xs) = p x && all p xs

  abbrev pub keep : (A → Bool) → List A → List A
  keep p [] = []
  keep p (x ∷ xs) = if p x then x ∷ keep p xs else keep p xs

  abbrev pub find : (A → Bool) → List A → Option A
  find p [] = none
  find p (x ∷ xs) = if p x then some x else find p xs

  pub any-append : (p : A → Bool) (xs ys : List A) → any p (xs ++ ys) ≡ (any p xs || any p ys)
  any-append p [] ys = refl
  any-append p (x ∷ xs) ys = ground (arith, any-append p xs ys)

  pub length-keep-le : (p : A → Bool) (xs : List A) → length (keep p xs) ≤ length xs
  length-keep-le p [] = omega arith
  length-keep-le p (x ∷ xs) = ground (arith, length-keep-le p xs)

module _ {ℓ} {A : Type ℓ} ⦃e : Eq A⦄ where
  -- `Array.prototype.includes`, `Set.prototype.has`.
  abbrev pub member : A → List A → Bool
  member a [] = false
  member a (x ∷ xs) = x == a || member a xs

  -- `Set.prototype.add`, in insertion order, and `Set.prototype.delete`.
  abbrev pub add : A → List A → List A
  add a [] = a ∷ []
  add a (x ∷ xs) = if x == a then x ∷ xs else x ∷ add a xs

  abbrev pub remove : A → List A → List A
  remove a [] = []
  remove a (x ∷ xs) = if x == a then remove a xs else x ∷ remove a xs

  pub member-add : (a b : A) (xs : List A) → member b (add a xs) ≡ (a == b || member b xs)
  member-add a b [] = refl
  member-add a b (x ∷ xs) = ground (arith, e.decides x a, member-add a b xs)

  pub add-known : (a : A) (xs : List A) → member a xs ≡ true → add a xs ≡ xs
  add-known a [] h = ground (arith, h)
  add-known a (x ∷ xs) h = elim (Bool-cases (x == a)) [
    | inl here ↦ rw here refl
    | inr other ↦ rw other (ap (λ ys. x ∷ ys) (add-known a xs (ground (arith, h, other))))
  ]

  pub member-remove :
      (a b : A) (xs : List A) → member b (remove a xs) ≡ (if a == b then false else member b xs)
  member-remove a b [] = ground arith
  member-remove a b (x ∷ xs) =
      ground (arith, e.decides x a, e.decides a b, e.decides x b, member-remove a b xs)

  pub member-keep :
      (p : A → Bool) (b : A) (xs : List A) → member b (keep p xs) ≡ (member b xs && p b)
  member-keep p b [] = refl
  member-keep p b (x ∷ xs) = elim (Bool-cases (x == b)) [
    | inl here ↦ ground (arith, ap p ((e.decides x b).0 here), member-keep p b xs)
    | inr other ↦ ground (arith, member-keep p b xs)
  ]

module _ {ℓ κ} {A : Type ℓ} (P : A → Type κ) where
  abbrev pub All : List A → Type κ
  All [] = Unit
  All (x ∷ xs) = P x × All xs

  pub All-append : (xs ys : List A) → All xs → All ys → All (xs ++ ys)
  All-append [] ys h k = k
  All-append (x ∷ xs) ys (p, h) k = (p, All-append xs ys h k)

-- Lists without repetition, as the elements of a `Set`.
module _ {ℓ} {A : Type ℓ} ⦃e : Eq A⦄ where
  abbrev pub Distinct : List A → Type 0
  Distinct [] = Unit
  Distinct (x ∷ xs) = (member x xs ≡ false) × Distinct xs

  pub add-Distinct : (a : A) (xs : List A) → Distinct xs → Distinct (add a xs)
  add-Distinct a [] h = (refl, tt)
  add-Distinct a (x ∷ xs) (n, h) = elim (Bool-cases (x == a)) [
    | inl here ↦ rw here (n, h)
    | inr other ↦ rw other (
      ground (arith, n, other, member-add a x xs, e.decides a x, e.decides x a),
      add-Distinct a xs h,
    )
  ]

  pub remove-Distinct : (a : A) (xs : List A) → Distinct xs → Distinct (remove a xs)
  remove-Distinct a [] h = tt
  remove-Distinct a (x ∷ xs) (n, h) = elim (Bool-cases (x == a)) [
    | inl here ↦ rw here (remove-Distinct a xs h)
    | inr other ↦ rw other (ground (arith, n, member-remove a x xs), remove-Distinct a xs h)
  ]
