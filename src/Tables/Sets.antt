-- ===== src/Tables/Sets.antt =====
-- Sets of columns: packages/common-frontend/src/components/Table/useColumnsSets.tsx. Whether a
-- column is shown, by its index.
use boar_pack.Base.{
  String, Bool, true, false, not, ◌&&◌, ◌||◌, Option, none, some, List, [], ◌∷◌, text_eq,
  if◌then◌else◌, ◌==◌, member, join,
}
use boar_pack.Dict.{get, set}
use boar_pack.Tables.Columns.{
  DataIndex, no_index, name, path, IndexableRecord, leaf, group, IndexableRecords, end, next,
}
use boar_pack.Tables.Query.{ColumnsStates}

-- `idx`, and as a key of an object.
abbrev pub index_text : DataIndex → Option String
index_text no_index = none
index_text (name s) = some s
index_text (path names) = some (join "," names)

abbrev pub index_key : DataIndex → String
index_key index = elim (index_text index) [ some s ↦ s | none ↦ "undefined" ]

-- It is given and not empty.
abbrev pub is_indexed : DataIndex → Bool
is_indexed index = elim (index_text index) [ some s ↦ not (s == "") | none ↦ false ]

module _ (shown_cols : List String) where
  abbrev pub is_shown_with : DataIndex → Bool → Bool
  is_shown_with index children_shown =
      is_indexed index && (member (index_key index) shown_cols || children_shown)

  -- What a column adds to the state, after its children, and whether it is shown.
  abbrev pub settled : DataIndex → ColumnsStates × Bool → ColumnsStates × Bool
  settled index (state, children_shown) =
      if is_indexed index
      then (if is_shown_with index children_shown
          then (state, true)
          else (set (index_key index) false state, false))
      else (state, false)

  unfoldable mutual
    pub get_columns_states : IndexableRecords → ColumnsStates → ColumnsStates × Bool
    get_columns_states end state = (state, false)
    get_columns_states (next col cols) state =
        let (after_col, col_shown) = column_states col state in
        let (after_cols, cols_shown) = get_columns_states cols after_col in
        (after_cols, col_shown || cols_shown)

    pub column_states : IndexableRecord → ColumnsStates → ColumnsStates × Bool
    column_states (leaf index editable) state = settled index (state, false)
    column_states (group index editable children) state =
        settled index (get_columns_states children state)

-- `checkParentVisibility`: a parent is shown when a child of it is. The answer is whether some of
-- these columns was shown when it was reached.
abbrev pub is_shown : DataIndex → ColumnsStates → Bool
is_shown index value =
    is_indexed index && elim (get (index_key index) value) [ some shown ↦ shown | none ↦ false ]

unfoldable mutual
  pub check_parent_visibility : IndexableRecords → ColumnsStates → ColumnsStates × Bool
  check_parent_visibility end value = (value, false)
  check_parent_visibility (next col cols) value =
      let (after_col, col_shown) = check_column col value in
      let (after_cols, cols_shown) = check_parent_visibility cols after_col in
      (after_cols, col_shown || cols_shown)

  pub check_column : IndexableRecord → ColumnsStates → ColumnsStates × Bool
  check_column (leaf index editable) value = (value, is_shown index value)
  check_column (group index editable children) value =
      let (after_children, child_shown) = check_parent_visibility children value in
      (
        if child_shown then set (index_key index) true after_children else after_children,
        is_shown index value,
      )

-- `columnsState.onChange`: what becomes the chosen set.
unfoldable pub on_change : IndexableRecords → ColumnsStates → ColumnsStates
on_change columns value = (check_parent_visibility columns value).0

-- The named sets, and the choice of one. A name without a set shows all columns.
abbrev pub columns_sets_by_name :
    IndexableRecords → List (String × List String) → List (String × ColumnsStates)
columns_sets_by_name columns [] = []
columns_sets_by_name columns ((set_name, shown_cols) ∷ sets) =
    (set_name, (get_columns_states shown_cols columns []).0) ∷ columns_sets_by_name columns sets
