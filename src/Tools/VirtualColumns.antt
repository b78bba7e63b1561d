-- ===== src/Tools/VirtualColumns.antt =====
-- The decorator VirtualColumn of packages/common-backend/src/tools/virtual-column.decorator.ts and the
-- patch of executeEntitiesAndRawResults in select-query-builder.extension.ts beside it. The table of
-- reflect-metadata is a parameter, which keeps a reference for a class; the columns that the
-- references stand for are the heap.
use boar_pack.Base.{
  ℕ, suc, String, Option, none, some, List, [], ◌∷◌, number_eq, text_eq, Result, ok, err, ◌>>=◌,
}
use boar_pack.Dict.{get, set}

-- The columns of a class: the names of the selected values by the properties.
pub record Store (Metadata : Type 0) : Type 0 where
  pub heap : List (ℕ × List (String × String))
  pub fresh : ℕ
  pub metadata : Metadata

-- An instance of a class, by the values of its properties, of which none is `undefined`.
pub record Entity (Class Value : Type 0) : Type 0 where
  pub class : Class
  pub fields : List (String × Option Value)

-- Reading a property of `undefined`.
pub data TypeError : Type 0 where
  no_item : TypeError

abbrev pub or_key : Option String → String → String
or_key (some name) key = name
or_key none key = key

abbrev pub or_empty : Option (List (String × String)) → List (String × String)
or_empty (some columns) = columns
or_empty none = []

-- `item[name]`.
abbrev pub value_of : {Value : Type 0} → String → List (String × Option Value) → Option Value
value_of name item = elim (get name item) [ some v ↦ v | none ↦ none ]

-- The assignments to one entity, for the entries of its columns in their order.
unfoldable pub assign :
    {Value : Type 0}
    → List (String × String)
    → List (String × Option Value)
    → List (String × Option Value)
    → List (String × Option Value)
assign [] item fields = fields
assign ((key, name) ∷ columns) item fields =
    assign columns item (set key (value_of name item) fields)

unfoldable pub fill :
    {Value : Type 0}
    → List (String × String)
    → Option (List (String × Option Value))
    → List (String × Option Value)
    → Result TypeError (List (String × Option Value))
fill [] item fields = ok fields
fill (c ∷ columns) none fields = err no_item
fill (c ∷ columns) (some item) fields = ok (assign (c ∷ columns) item fields)

-- `raw[index]` and the rows after it.
abbrev pub first {ℓ} : {A : Type ℓ} → List A → Option A
first [] = none
first (x ∷ xs) = some x

abbrev pub rest {ℓ} : {A : Type ℓ} → List A → List A
rest [] = []
rest (x ∷ xs) = xs

module _ {Class Metadata : Type 0} (get_metadata : Metadata → Class → Option ℕ)
    (define_metadata : ℕ → Metadata → Class → Metadata) where
  -- The columns that a class finds, its own or those of the nearest class that it extends.
  abbrev pub columns : Store Metadata → Class → List (String × String)
  columns s class = elim (get_metadata s.metadata class) [
    | none ↦ []
    | some reference ↦ or_empty (get reference s.heap)
  ]

  unfoldable pub virtual_column : Option String → Class → String → Store Metadata → Store Metadata
  virtual_column name target key s = elim (get_metadata s.metadata target) [
    | none ↦ record {
      heap = set s.fresh ((key, or_key name key) ∷ []) s.heap;
      fresh = suc s.fresh;
      metadata = define_metadata s.fresh s.metadata target;
    }
    | some reference ↦ record {
      heap = set reference (set key (or_key name key) (or_empty (get reference s.heap))) s.heap;
      fresh = s.fresh;
      metadata = define_metadata reference s.metadata target;
    }
  ]

  -- The entities that the patch returns for those of the query and its raw rows.
  unfoldable pub execute_entities_and_raw_results :
      {Value : Type 0}
      → Store Metadata
      → List (Entity Class Value)
      → List (List (String × Option Value))
      → Result TypeError (List (Entity Class Value))
  execute_entities_and_raw_results s [] raw = ok []
  execute_entities_and_raw_results s (e ∷ entities) raw =
      fill (columns s e.class) (first raw) e.fields >>= λ fields.
      execute_entities_and_raw_results s entities (rest raw) >>= λ filled.
      ok (record { class = e.class; fields = fields } ∷ filled)
