-- ===== src/Imports/Origin.antt =====
-- Where the rows that useImportExport.tsx compares come from: the file and the export.
use boar_pack.Base.{
  String, ◌≡◌, refl, sym, false, Option, some, List, [], ◌∷◌, text_eq, ◌==◌, All, arith, Bool-cases,
  inl, inr,
}
use mathlib.Core.Path.{subst}
use mathlib.Core.Option.{some-injective}
use mathlib.Core.List.{Mem, mem-cons_self, mem-cons_of_mem}
use text.Mathlib.TextEquality.{eq_iff}
use boar_pack.Dict.{get, set}
use boar_pack.Imports.Modal.{Row}
use boar_pack.Imports.Diff.{
  Cell, TypedColumn, is_falsy, id_text, normalize_row, old_map, read_row, read_rows,
}

module _ (P : String → Row Cell → Type 0) where
  -- The entries of a map.
  abbrev pub Entry : String × Row Cell → Type 0
  Entry e = P e.0 e.1

  All-set :
      (k : String) (v : Row Cell) (m : List (String × Row Cell))
      → P k v
      → All Entry m
      → All Entry (set k v m)
  unfolding set
  All-set k v [] h hs = (h, tt)
  All-set k v ((j, w) ∷ m) h (g, hs) = elim (Bool-cases (j == k)) [
    | inl here ↦ rw here (subst (λ i. P i v) (sym ((eq_iff j k).0 here)) h, hs)
    | inr other ↦ rw other (g, All-set k v m h hs)
  ]

  pub get-All :
      (k : String) (v : Row Cell) (m : List (String × Row Cell))
      → All Entry m
      → get k m ≡ some v
      → P k v
  unfolding get
  get-All k v [] hs e = ground (arith, e)
  get-All k v ((j, w) ∷ m) (g, hs) e = elim (Bool-cases (j == k)) [
    | inl here ↦
        subst (λ i. P i v) ((eq_iff j k).0 here) (subst (P j) (some-injective w v (rw here at e)) g)
    | inr other ↦ get-All k v m hs (rw other at e)
  ]

All-map {ℓ κ} :
    {A : Type ℓ} (P Q : A → Type κ) (xs : List A) → ((x : A) → P x → Q x) → All P xs → All Q xs
All-map P Q [] f hs = tt
All-map P Q (x ∷ xs) f (h, hs) = (f x h, All-map P Q xs f hs)

-- Each element is one of the list.
each-Mem {ℓ} : {A : Type ℓ} (xs : List A) → All (λ x. Mem x xs) xs
each-Mem [] = tt
each-Mem (x ∷ xs) = (
  mem-cons_self,
  All-map (λ y. Mem y xs) (λ y. Mem y (x ∷ xs)) xs (λ y h. mem-cons_of_mem x h) (each-Mem xs),
)

module _ (number_of : Cell → Cell) (text_of : Cell → String)
    (relations : List (String × (Cell → Option Cell))) (columns : List TypedColumn) where
  -- A normalized row of the file that has the id.
  abbrev pub FromFile : List (Row Cell) → String → Row Cell → Type 0
  FromFile after id row =
      (raw : Row Cell) × Mem raw after
      × (row ≡ normalize_row number_of text_of relations columns raw)
      × (is_falsy (get "id" row) ≡ false)
      × (id ≡ id_text number_of text_of relations columns (get "id" row))

  -- A row of the export, normalized, which had the id before.
  abbrev pub FromExport : List (Row Cell) → String → Row Cell → Type 0
  FromExport before id old =
      (raw : Row Cell) × Mem raw before
      × (old ≡ normalize_row number_of text_of relations columns raw)
      × (id ≡ id_text number_of text_of relations columns (get "id" raw))

  All-old_map :
      (before rows : List (Row Cell)) (m : List (String × Row Cell))
      → All (λ x. Mem x before) rows
      → All (Entry (FromExport before)) m
      → All (Entry (FromExport before)) (old_map number_of text_of relations columns rows m)
  All-old_map before [] m hs h = h
  All-old_map before (raw ∷ rows) m (there, hs) h =
      All-old_map before rows _ hs (All-set (FromExport before) _ _ m (raw, there, refl, refl) h)

  All-read_rows :
      (after rows created : List (Row Cell)) (m : List (String × Row Cell))
      → All (λ x. Mem x after) rows
      → All (Entry (FromFile after)) m
      → All
          (Entry (FromFile after))
          (read_rows number_of text_of relations columns rows (created, m)).1
  unfolding read_rows
  All-read_rows after [] created m hs h = h
  All-read_rows after (raw ∷ rows) created m (there, hs) h =
      let row = normalize_row number_of text_of relations columns raw in
      elim (Bool-cases (is_falsy (get "id" row))) [
        | inl missing ↦ rw (read_rows, read_row, missing) (All-read_rows after rows _ m hs h)
        | inr known ↦
            rw (read_rows, read_row, known)
              (All-read_rows after rows created _ hs
                (All-set (FromFile after) _ _ m (raw, there, refl, known, refl) h))
      ]

  pub old_map-FromExport :
      (before : List (Row Cell))
      → All (Entry (FromExport before)) (old_map number_of text_of relations columns before [])
  old_map-FromExport before = All-old_map before before [] (each-Mem before) tt

  pub read_rows-FromFile :
      (after : List (Row Cell))
      → All
          (Entry (FromFile after))
          (read_rows number_of text_of relations columns after ([], [])).1
  read_rows-FromFile after = All-read_rows after after [] [] (each-Mem after) tt
