-- ===== src/Tools/Hydrated.antt =====
-- The properties of the entities that the patched query returns.
use boar_pack.Base.{
  ℕ, zero, suc, ◌≤◌, String, ◌≡◌, refl, ap, ◌∙◌, true, false, Option, none, some, List, [], ◌∷◌,
  length, number_eq, text_eq, ◌==◌, ok, arith, Bool-cases, Option-cases, inl, inr,
}
use mathlib.Core.Option.{some-injective}
use text.Mathlib.TextEquality.{eq_iff}
use boar_pack.Dict.{get, has, has-get, get-set_at, get-set_apart}
use boar_pack.Tools.VirtualColumns.{
  Store, Entity, columns, value_of, assign, fill, execute_entities_and_raw_results,
}

abbrev pub nth {ℓ} : {A : Type ℓ} → ℕ → List A → Option A
nth i [] = none
nth zero (x ∷ xs) = some x
nth (suc i) (x ∷ xs) = nth i xs

-- Each property is declared once, as the keys of an object are.
abbrev pub Single : List (String × String) → Type 0
Single [] = Unit
Single ((key, name) ∷ columns) = (has key columns ≡ false) × Single columns

-- The property of an entity that may be missing.
abbrev pub field :
    {Class Value : Type 0} → String → Option (Entity Class Value) → Option (Option Value)
field k none = none
field k (some e) = get k e.fields

-- A property after the assignments: the value of its column, or what it was.
abbrev pub hydrated_field :
    {Value : Type 0}
    → String
    → List (String × String)
    → List (String × Option Value)
    → List (String × Option Value)
    → Option (Option Value)
hydrated_field k columns item fields = elim (get k columns) [
  | some name ↦ some (value_of name item)
  | none ↦ get k fields
]

missing :
    (k key : String) (columns : List (String × String))
    → (key == k) ≡ true
    → has key columns ≡ false
    → get k columns ≡ none
missing k key columns same absent =
    ground (arith, ap (λ j. has j columns) ((eq_iff key k).0 same), has-get k columns, absent)

get-assign :
    {Value : Type 0} (k : String) (columns : List (String × String))
    (item fields : List (String × Option Value))
    → Single columns
    → get k (assign columns item fields) ≡ hydrated_field k columns item fields
unfolding assign get
get-assign k [] item fields h = refl
get-assign k ((key, name) ∷ columns) item fields (absent, single) =
    get-assign k columns item _ single ∙ elim (Bool-cases (key == k)) [
      | inl same ↦
          rw (hydrated_field, missing k key columns same absent, same)
            (get-set_at key k _ fields same)
      | inr other ↦ elim (Option-cases (get k columns)) [
        | inl none_there ↦
            rw (hydrated_field, none_there, other) (get-set_apart key k _ fields other)
        | inr (n, there) ↦ rw (hydrated_field, there, other) refl
      ]
    ]

fill-assign :
    {Value : Type 0} (columns : List (String × String)) (item fields : List (String × Option Value))
    → fill columns (some item) fields ≡ ok (assign columns item fields)
unfolding fill assign
fill-assign [] item fields = refl
fill-assign (c ∷ columns) item fields = refl

module _ {Class Metadata : Type 0} (get_metadata : Metadata → Class → Option ℕ)
    (define_metadata : ℕ → Metadata → Class → Metadata) where
  -- The entities with the assignments of the rows beside them.
  abbrev beside :
      {Value : Type 0}
      → Store Metadata
      → List (Entity Class Value)
      → List (List (String × Option Value))
      → List (Entity Class Value)
  beside s [] raw = []
  beside s (e ∷ entities) [] = []
  beside s (e ∷ entities) (item ∷ raw) =
      record {
        class = e.class;
        fields = assign (columns get_metadata define_metadata s e.class) item e.fields;
      }
      ∷ beside s entities raw

  execute-beside :
      {Value : Type 0} (s : Store Metadata) (entities : List (Entity Class Value))
      (raw : List (List (String × Option Value)))
      → length entities ≤ length raw
      → execute_entities_and_raw_results get_metadata define_metadata s entities raw
        ≡ ok (beside s entities raw)
  unfolding execute_entities_and_raw_results
  execute-beside s [] raw h = refl
  execute-beside s (e ∷ entities) [] h = ground (arith, h)
  execute-beside s (e ∷ entities) (item ∷ raw) h =
      rw
        (
          fill-assign (columns get_metadata define_metadata s e.class) item e.fields,
          execute-beside s entities raw (omega (arith, h)),
        )
        refl

  nth-beside :
      {Value : Type 0} (s : Store Metadata) (entities : List (Entity Class Value))
      (raw : List (List (String × Option Value))) (i : ℕ) (e : Entity Class Value)
      (item : List (String × Option Value)) (k : String)
      → Single (columns get_metadata define_metadata s e.class)
      → nth i entities ≡ some e
      → nth i raw ≡ some item
      → field k (nth i (beside s entities raw))
        ≡ hydrated_field k (columns get_metadata define_metadata s e.class) item e.fields
  nth-beside s [] raw i e item k single here row = ground (arith, here)
  nth-beside s (f ∷ entities) [] i e item k single here row = ground (arith, row)
  nth-beside s (f ∷ entities) (r ∷ raw) zero e item k single here row =
      let same = some-injective f e here in
      ap (λ x. get k (assign (columns get_metadata define_metadata s x.class) r x.fields)) same
      ∙ ap (λ y. get k (assign (columns get_metadata define_metadata s e.class) y e.fields))
          (some-injective r item row)
      ∙ get-assign k (columns get_metadata define_metadata s e.class) item e.fields single
  nth-beside s (f ∷ entities) (r ∷ raw) (suc i) e item k single here row =
      nth-beside s entities raw i e item k single here row

  -- If there is a raw row for each entity and each property of an entity's class has one column, then
  -- the query returns entities, and the entity at each index has in each property the value that the
  -- row at that index has under the name of the property's column, or none if it has none, and in a
  -- property without a column what it had.
  pub execute-hydrated_field :
      {Value : Type 0} (s : Store Metadata) (entities : List (Entity Class Value))
      (raw : List (List (String × Option Value))) (i : ℕ) (e : Entity Class Value)
      (item : List (String × Option Value)) (k : String)
      → length entities ≤ length raw
      → Single (columns get_metadata define_metadata s e.class)
      → nth i entities ≡ some e
      → nth i raw ≡ some item
      → (out : List (Entity Class Value)) × (execute_entities_and_raw_results get_metadata
            define_metadata s entities raw
          ≡ ok out)
        × (field k (nth i out)
            ≡ hydrated_field k (columns get_metadata define_metadata s e.class) item e.fields)
  execute-hydrated_field s entities raw i e item k enough single here row = (
    beside s entities raw,
    execute-beside s entities raw enough,
    nth-beside s entities raw i e item k single here row,
  )
