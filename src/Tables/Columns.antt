-- ===== src/Tables/Columns.antt =====
-- The columns of a table, which hold columns, and the fields that a request asks for:
-- packages/common-frontend/src/components/Table/tableTools.ts. Names in columns are texts.

use boar_pack.Base.{
  String, Bool, true, false, not, ◌||◌, Option, none, some, List, [], ◌∷◌, text_eq, if◌then◌else◌,
  ◌==◌, member, add, join,
}

-- `dataIndex`: it is not given, a name, or the names of a path.
pub data DataIndex : Type 0 where
  no_index : DataIndex
  name : String → DataIndex
  path : List String → DataIndex

pub data Editable : Type 0 where
  unset by_row : Editable
  decided : Bool → Editable

-- `TIndexableRecord`: a column, or a column with an array of children.
mutual
  pub data IndexableRecord : Type 0 where
    leaf : DataIndex → Editable → IndexableRecord
    group : DataIndex → Editable → IndexableRecords → IndexableRecord

  pub data IndexableRecords : Type 0 where
    end : IndexableRecords
    next : IndexableRecord → IndexableRecords → IndexableRecords

-- The name itself or the first of the path.
abbrev pub first_name : DataIndex → Option String
first_name no_index = none
first_name (name s) = some s
first_name (path []) = none
first_name (path (s ∷ rest)) = some s

-- `String(…)` of it.
abbrev pub shown_name : DataIndex → String
shown_name index = elim (first_name index) [ some s ↦ s | none ↦ "undefined" ]

abbrev pub is_editable : Editable → Bool
is_editable (decided false) = false
is_editable _ = true

abbrev pub add_shown : DataIndex → Editable → List String → List String
add_shown index editable fields =
    if is_editable editable then add (shown_name index) fields else fields

-- `fields` is a `Set`, which keeps the order of insertion.
unfoldable mutual
  pub build_fields_from_columns_for_descriptions_display :
      IndexableRecords → List String → List String
  build_fields_from_columns_for_descriptions_display end fields = fields
  build_fields_from_columns_for_descriptions_display (next col cols) fields =
      build_fields_from_columns_for_descriptions_display cols (shown_from_column col fields)

  pub shown_from_column : IndexableRecord → List String → List String
  shown_from_column (leaf index editable) fields = add_shown index editable fields
  shown_from_column (group index editable children) fields =
      add_shown index editable (build_fields_from_columns_for_descriptions_display children fields)

-- `idColumnName` as the list of its names; `joined` are the relations that a join includes.
module _ (id_column_names joined : List String) where
  abbrev pub is_asked : String → Bool
  is_asked s = not (s == "" || member s id_column_names || member s joined)

  abbrev pub add_asked : DataIndex → List String → List String
  add_asked index fields = elim (first_name index) [
    | some s ↦ if is_asked s then add s fields else fields
    | none ↦ fields
  ]

  unfoldable mutual
    pub build_fields_from_columns : IndexableRecords → List String → List String
    build_fields_from_columns end fields = fields
    build_fields_from_columns (next col cols) fields =
        build_fields_from_columns cols (fields_from_column col fields)

    pub fields_from_column : IndexableRecord → List String → List String
    fields_from_column (leaf index editable) fields = add_asked index fields
    fields_from_column (group index editable children) fields =
        add_asked index (build_fields_from_columns children fields)

  -- One text, the fields behind commas.
  unfoldable pub collect_fields_from_columns : IndexableRecords → List String
  collect_fields_from_columns columns = join "," (build_fields_from_columns columns []) ∷ []
