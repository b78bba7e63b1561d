-- ===== src/Tables/Fields.antt =====
-- The fields that the walks over the columns collect, against the flattened columns.
use text.Mathlib.TextEquality.{eq_iff}
use boar_pack.Base.{
  String, ◌≡◌, refl, sym, ap, ◌∙◌, Bool, false, ◌&&◌, ◌||◌, none, some, List, [], ◌∷◌, ◌++◌,
  text_eq, if◌then◌else◌, ◌==◌, member, add, member-add, arith, any, Distinct, add-Distinct,
  Bool-cases, inl, inr,
}
use boar_pack.Tables.Columns.{
  DataIndex, no_index, name, path, Editable, IndexableRecord, leaf, group, IndexableRecords, end,
  next, first_name, shown_name, is_editable, add_shown,
  build_fields_from_columns_for_descriptions_display, shown_from_column, is_asked, add_asked,
  build_fields_from_columns, fields_from_column,
}

-- The columns in the order in which they are visited: a column after its children.
unfoldable mutual
  pub visited : IndexableRecords → List (DataIndex × Editable)
  visited end = []
  visited (next col cols) = visited_column col ++ visited cols

  pub visited_column : IndexableRecord → List (DataIndex × Editable)
  visited_column (leaf index editable) = (index, editable) ∷ []
  visited_column (group index editable children) = visited children ++ (index, editable) ∷ []

abbrev pub add_all : List String → List String → List String
add_all [] fields = fields
add_all (k ∷ keys) fields = add_all keys (add k fields)

add_all-append :
    (xs ys fields : List String) → add_all (xs ++ ys) fields ≡ add_all ys (add_all xs fields)
add_all-append [] ys fields = refl
add_all-append (x ∷ xs) ys fields = add_all-append xs ys (add x fields)

member-add_all :
    (k : String) (keys fields : List String)
    → member k (add_all keys fields) ≡ (member k keys || member k fields)
member-add_all k [] fields = refl
member-add_all k (j ∷ keys) fields =
    ground (arith, member-add_all k keys (add j fields), member-add j k fields)

add_all-Distinct : (keys fields : List String) → Distinct fields → Distinct (add_all keys fields)
add_all-Distinct [] fields h = h
add_all-Distinct (k ∷ keys) fields h =
    add_all-Distinct keys (add k fields) (add-Distinct k fields h)

-- The first name of a column is this one.
abbrev pub has_name : String → DataIndex → Bool
has_name k index = elim (first_name index) [ some s ↦ s == k | none ↦ false ]

abbrev pub names_shown : List (DataIndex × Editable) → List String
names_shown [] = []
names_shown ((index, editable) ∷ cols) =
    let rest = names_shown cols in if is_editable editable then shown_name index ∷ rest else rest

names_shown-append :
    (xs ys : List (DataIndex × Editable))
    → names_shown (xs ++ ys) ≡ names_shown xs ++ names_shown ys
names_shown-append [] ys = refl
names_shown-append ((index, editable) ∷ xs) ys = ground (arith, names_shown-append xs ys)

last_shown :
    (index : DataIndex) (editable : Editable) (xs fields : List String)
    → add_shown index editable (add_all xs fields)
      ≡ add_all (xs ++ names_shown ((index, editable) ∷ [])) fields
last_shown index editable xs fields =
    ground (arith, add_all-append xs (names_shown ((index, editable) ∷ [])) fields)

module _ (id_column_names joined : List String) where
  abbrev pub names_asked : List (DataIndex × Editable) → List String
  names_asked [] = []
  names_asked ((index, editable) ∷ cols) = elim (first_name index) [
    | some s ↦
        (let rest = names_asked cols in
          if is_asked id_column_names joined s then s ∷ rest else rest)
    | none ↦ names_asked cols
  ]

  names_asked-append :
      (xs ys : List (DataIndex × Editable))
      → names_asked (xs ++ ys) ≡ names_asked xs ++ names_asked ys
  names_asked-append [] ys = refl
  names_asked-append ((index, editable) ∷ xs) ys = ground (arith, names_asked-append xs ys)

  last_asked :
      (index : DataIndex) (editable : Editable) (xs fields : List String)
      → add_asked id_column_names joined index (add_all xs fields)
        ≡ add_all (xs ++ names_asked ((index, editable) ∷ [])) fields
  last_asked index editable xs fields =
      ground (arith, add_all-append xs (names_asked ((index, editable) ∷ [])) fields)

  mutual
    unfolding build_fields_from_columns visited

    build_fields-add_all :
        (columns : IndexableRecords) (fields : List String)
        → build_fields_from_columns id_column_names joined columns fields
          ≡ add_all (names_asked (visited columns)) fields
    build_fields-add_all end fields = refl
    build_fields-add_all (next col cols) fields =
        build_fields-add_all cols (fields_from_column id_column_names joined col fields)
        ∙ ap (add_all (names_asked (visited cols))) (fields_from_column-add_all col fields)
        ∙ sym
            (add_all-append (names_asked (visited_column col)) (names_asked (visited cols)) fields)
        ∙ ap (λ x. add_all x fields) (sym (names_asked-append (visited_column col) (visited cols)))

    fields_from_column-add_all :
        (col : IndexableRecord) (fields : List String)
        → fields_from_column id_column_names joined col fields
          ≡ add_all (names_asked (visited_column col)) fields
    fields_from_column-add_all (leaf index editable) fields = ground arith
    fields_from_column-add_all (group index editable children) fields =
        ap (add_asked id_column_names joined index) (build_fields-add_all children fields)
        ∙ last_asked index editable (names_asked (visited children)) fields
        ∙ ap (λ x. add_all x fields)
            (sym (names_asked-append (visited children) ((index, editable) ∷ [])))

  asked_first :
      (k s : String) (rest : List String) (seen : Bool)
      → member k rest ≡ (seen && is_asked id_column_names joined k)
      → member k (if is_asked id_column_names joined s then s ∷ rest else rest)
        ≡ ((s == k || seen) && is_asked id_column_names joined k)
  asked_first k s rest seen h = elim (Bool-cases (s == k)) [
    | inl here ↦ ground (arith, h, here, ap (is_asked id_column_names joined) ((eq_iff s k).0 here))
    | inr other ↦ ground (arith, h, other)
  ]

  names_asked-member :
      (k : String) (cols : List (DataIndex × Editable))
      → member k (names_asked cols)
        ≡ (any (λ c. has_name k c.0) cols && is_asked id_column_names joined k)
  names_asked-member k [] = refl
  names_asked-member k ((no_index, editable) ∷ cols) = names_asked-member k cols
  names_asked-member k ((name s, editable) ∷ cols) =
      asked_first k s (names_asked cols) (any (λ c. has_name k c.0) cols)
        (names_asked-member k cols)
  names_asked-member k ((path [], editable) ∷ cols) = names_asked-member k cols
  names_asked-member k ((path (s ∷ rest), editable) ∷ cols) =
      asked_first k s (names_asked cols) (any (λ c. has_name k c.0) cols)
        (names_asked-member k cols)

  -- A field is asked for, from a new set, exactly if it is the first name of a column at some
  -- depth and is not empty, no name of an id and no relation that is joined; none is asked for
  -- twice.
  pub build_fields_from_columns-member :
      (columns : IndexableRecords) (k : String)
      → (member k (build_fields_from_columns id_column_names joined columns [])
          ≡ (any (λ c. has_name k c.0) (visited columns) && is_asked id_column_names joined k))
        × Distinct (build_fields_from_columns id_column_names joined columns [])
  build_fields_from_columns-member columns k =
      let same = build_fields-add_all columns [] in
      (
        ap (member k) same
            ∙ ground (
              arith,
              member-add_all k (names_asked (visited columns)) [],
              names_asked-member k (visited columns),
            ),
        rw same (add_all-Distinct (names_asked (visited columns)) [] tt),
      )

mutual
  unfolding build_fields_from_columns_for_descriptions_display visited

  shown_fields-add_all :
      (columns : IndexableRecords) (fields : List String)
      → build_fields_from_columns_for_descriptions_display columns fields
        ≡ add_all (names_shown (visited columns)) fields
  shown_fields-add_all end fields = refl
  shown_fields-add_all (next col cols) fields =
      shown_fields-add_all cols (shown_from_column col fields)
      ∙ ap (add_all (names_shown (visited cols))) (shown_from_column-add_all col fields)
      ∙ sym (add_all-append (names_shown (visited_column col)) (names_shown (visited cols)) fields)
      ∙ ap (λ x. add_all x fields) (sym (names_shown-append (visited_column col) (visited cols)))

  shown_from_column-add_all :
      (col : IndexableRecord) (fields : List String)
      → shown_from_column col fields ≡ add_all (names_shown (visited_column col)) fields
  shown_from_column-add_all (leaf index editable) fields = ground arith
  shown_from_column-add_all (group index editable children) fields =
      ap (add_shown index editable) (shown_fields-add_all children fields)
      ∙ last_shown index editable (names_shown (visited children)) fields
      ∙ ap (λ x. add_all x fields)
          (sym (names_shown-append (visited children) ((index, editable) ∷ [])))

-- The fields of the descriptions are the first names of the columns that may be edited, of all
-- depths, in the order of the visit and each at its first place, which is what a walk of the
-- flattened columns adds to the set.
pub build_fields_from_columns_for_descriptions_display_lem :
    (columns : IndexableRecords) (fields : List String)
    → build_fields_from_columns_for_descriptions_display columns fields
      ≡ add_all (names_shown (visited columns)) fields
build_fields_from_columns_for_descriptions_display_lem columns fields =
    shown_fields-add_all columns fields
