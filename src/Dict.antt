-- ===== src/Dict.antt =====
-- JavaScript's `Map` and plain objects used as dictionaries: an association list in insertion
-- order. `set` on a key that is there keeps the key's place.
use boar_pack.Base.{
  ◌≡◌, refl, Bool, true, false, ◌||◌, Option, none, some, List, [], ◌∷◌, arith, Eq, ◌==◌,
  if◌then◌else◌, is_some, ap, ◌∙◌, ==_refl, ◌&&◌, Bool-cases, inl, inr,
}

module _ {ℓ κ} {K : Type ℓ} {V : Type κ} ⦃e : Eq K⦄ where
  unfoldable pub get : K → List (K × V) → Option V
  get k [] = none
  get k ((j, v) ∷ m) = if j == k then some v else get k m

  unfoldable pub set : K → V → List (K × V) → List (K × V)
  set k v [] = (k, v) ∷ []
  set k v ((j, w) ∷ m) = if j == k then (j, v) ∷ m else (j, w) ∷ set k v m

  unfoldable pub delete : K → List (K × V) → List (K × V)
  delete k [] = []
  delete k ((j, w) ∷ m) = if j == k then delete k m else (j, w) ∷ delete k m

  unfoldable pub has : K → List (K × V) → Bool
  has k [] = false
  has k ((j, w) ∷ m) = j == k || has k m

  pub get-set :
      (k j : K) (v : V) (m : List (K × V))
      → get j (set k v m) ≡ (if k == j then some v else get j m)
  unfolding get set
  get-set k j v [] = refl
  get-set k j v ((i, w) ∷ m) =
      ground (arith, e.decides k j, e.decides i k, e.decides i j, get-set k j v m)

  pub get-set_same : (k : K) (v : V) (m : List (K × V)) → get k (set k v m) ≡ some v
  get-set_same k v m = get-set k k v m ∙ rw (==_refl k) refl

  pub get-set_at :
      (k j : K) (v : V) (m : List (K × V)) → (k == j) ≡ true → get j (set k v m) ≡ some v
  get-set_at k j v m same = get-set k j v m ∙ rw same refl

  pub get-set_apart :
      (k j : K) (v : V) (m : List (K × V)) → (k == j) ≡ false → get j (set k v m) ≡ get j m
  get-set_apart k j v m other = get-set k j v m ∙ rw other refl

  pub get-delete :
      (k j : K) (m : List (K × V)) → get j (delete k m) ≡ (if k == j then none else get j m)
  unfolding get delete
  get-delete k j [] = ground arith
  get-delete k j ((i, w) ∷ m) =
      ground (arith, e.decides k j, e.decides i k, e.decides i j, get-delete k j m)

  pub has-set : (k j : K) (v : V) (m : List (K × V)) → has k (set j v m) ≡ (j == k || has k m)
  unfolding has set
  has-set k j v [] = refl
  has-set k j v ((i, w) ∷ m) =
      ground (arith, e.decides i j, e.decides j k, e.decides i k, has-set k j v m)

  pub has-get : (k : K) (m : List (K × V)) → has k m ≡ is_some (get k m)
  unfolding get has
  has-get k [] = refl
  has-get k ((j, w) ∷ m) = ground (arith, has-get k m)

  -- The entries whose key passes a test.
  abbrev pub keep_keys : (K → Bool) → List (K × V) → List (K × V)
  keep_keys p [] = []
  keep_keys p ((k, v) ∷ m) = if p k then (k, v) ∷ keep_keys p m else keep_keys p m

  pub has-keep_keys :
      (p : K → Bool) (k : K) (m : List (K × V)) → has k (keep_keys p m) ≡ (p k && has k m)
  unfolding has
  has-keep_keys p k [] = ground arith
  has-keep_keys p k ((j, v) ∷ m) = elim (Bool-cases (j == k)) [
    | inl here ↦ ground (arith, here, ap p ((e.decides j k).0 here), has-keep_keys p k m)
    | inr other ↦ ground (arith, other, has-keep_keys p k m)
  ]

  pub get-keep_keys :
      (p : K → Bool) (k : K) (m : List (K × V))
      → get k (keep_keys p m) ≡ (if p k then get k m else none)
  unfolding get
  get-keep_keys p k [] = ground arith
  get-keep_keys p k ((j, v) ∷ m) = elim (Bool-cases (j == k)) [
    | inl here ↦ ground (arith, here, ap p ((e.decides j k).0 here), get-keep_keys p k m)
    | inr other ↦ ground (arith, other, get-keep_keys p k m)
  ]
