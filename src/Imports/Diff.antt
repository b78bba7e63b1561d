-- ===== src/Imports/Diff.antt =====
-- The comparison of an imported file with the export that is fetched:
-- packages/common-frontend/src/components/Table/useImportExport.tsx, from the rows that are read.
-- `Number(…)`, `String(…)`, the library that finds differences and the dictionaries of relations
-- are parameters.
use boar_pack.Base.{
  ℕ, String, ◌<>◌, Bool, true, false, not, ◌||◌, Option, none, some, List, [], ◌∷◌, ◌++◌, map,
  if◌then◌else◌, ◌==◌, text_eq, member, without_first, ends_with, number_eq, truthy_text,
}
use boar_pack.Dict.{get, set, has}
use boar_pack.Imports.Modal.{Row}
use boar_pack.Imports.Order.{object_entries}

abbrev or_empty : Option String → String
or_empty (some s) = s
or_empty none = ""

-- The values of cells: `number` is a natural number, `other_number` one that is negative or has a
-- fraction, by its text. An entity of a dictionary has a name, a description and an id.
pub data Cell : Type 0 where
  undefined null not_a_number : Cell
  words : String → Cell
  number : ℕ → Cell
  other_number : String → Cell
  flag : Bool → Cell
  entity : Option String → Option String → ℕ → Cell

-- `getRelationalValue`.
abbrev pub get_relational_value : Cell → Cell
get_relational_value (entity label description id) =
    if truthy_text label
    then words (or_empty label)
    else if truthy_text description
    then words (or_empty description)
    else number id
get_relational_value _ = undefined

-- `valueType` of a column.
pub data ValueType : Type 0 where
  untyped as_text as_switch as_digit another : ValueType

pub record TypedColumn : Type 0 where
  pub data_index : String
  pub value_type : ValueType

abbrev pub true_boolean_values : List String
true_boolean_values = "TRUE" ∷ "True" ∷ "true" ∷ "1" ∷ "yes" ∷ "on" ∷ []

abbrev pub is_true_value : Cell → Bool
is_true_value (flag b) = b
is_true_value (words s) = member s true_boolean_values
is_true_value _ = false

abbrev pub is_empty_cell : Cell → Bool
is_empty_cell (words s) = s == "" || s == "null"
is_empty_cell _ = false

abbrev pub is_null : Cell → Bool
is_null null = true
is_null _ = false

-- JavaScript's condition on a value: `!id`.
abbrev pub is_falsy : Option Cell → Bool
is_falsy none = true
is_falsy (some undefined) = true
is_falsy (some null) = true
is_falsy (some not_a_number) = true
is_falsy (some (words s)) = s == ""
is_falsy (some (number n)) = n == 0
is_falsy (some (other_number s)) = false
is_falsy (some (flag b)) = not b
is_falsy (some (entity label description id)) = false

abbrev pub or_null : Option Cell → Cell
or_null c = if is_falsy c then null else elim c [ some v ↦ v | none ↦ null ]

abbrev pub defined_or : Option Cell → Option Cell → Option Cell
defined_or none other = other
defined_or (some undefined) other = other
defined_or (some v) other = some v

-- A path's first name, for each difference.
abbrev pub Differences : Type 0
Differences = List (Option String)

-- `TDiffResult`; a shown record is kept without its differences.
pub record DiffResult : Type 0 where
  pub created : List (Row Cell)
  pub updated : List (Row Cell)
  pub table_data : List (Row Cell)

-- `newMap[id][key]`, or the key of the relation where that is undefined.
abbrev pub value_of : String → Row Cell → Option Cell
value_of key row = defined_or (get key row) (get (key <> "_id") row)

abbrev pub set_given : String → Option Cell → Row Cell → Row Cell
set_given key none row = row
set_given key (some v) row = set key v row

-- The columns whose names are in a list, from the row of the file, onto a record.
abbrev pub add_columns : List String → Row Cell → List TypedColumn → Row Cell → Row Cell
add_columns names row [] record_so_far = record_so_far
add_columns names row (c ∷ cs) record_so_far = add_columns names row cs (
    if member c.data_index names
    then set_given c.data_index (value_of c.data_index row) record_so_far
    else record_so_far)

-- `changedFields`: the first names of the paths, without those that are empty.
abbrev pub changed_fields : Differences → List String
changed_fields [] = []
changed_fields (none ∷ ds) = changed_fields ds
changed_fields (some s ∷ ds) = let rest = changed_fields ds in if s == "" then rest else s ∷ rest

module _ (number_of : Cell → Cell) (text_of : Cell → String)
    (relations : List (String × (Cell → Option Cell))) (columns : List TypedColumn) where
  abbrev pub type_in : String → List TypedColumn → ValueType → ValueType
  type_in key [] found = found
  type_in key (c ∷ cs) found = type_in key cs (if c.data_index == key then c.value_type else found)

  -- `keyedColumns[key]?.valueType`: of columns with one name `keyBy` keeps the last.
  abbrev pub value_type_of : String → ValueType
  value_type_of key = type_in key columns untyped

  abbrev pub typed_cell : ValueType → Cell → Cell
  typed_cell as_switch v = flag (is_true_value v)
  typed_cell as_digit v = number_of v
  typed_cell untyped v = if is_empty_cell v then null else words (text_of v)
  typed_cell as_text v = if is_empty_cell v then null else words (text_of v)
  typed_cell another v = if is_empty_cell v then null else v

  -- One round of the loop of `normalizeRow`: the value of the key in the row as it is.
  abbrev pub normalized_cell : String → Cell → Row Cell → Row Cell
  normalized_cell key v row =
      if is_null v then row else elim (get (without_first "_id" key) relations) [
        | some data_of ↦ set (without_first "_id" key) (or_null (data_of (number_of v))) row
        | none ↦ set key (typed_cell (value_type_of key) v) row
      ]

  abbrev pub normalized_key : String → Row Cell → Row Cell
  normalized_key key row = elim (get key row) [ some v ↦ normalized_cell key v row | none ↦ row ]

  abbrev pub normalized_keys : List String → Row Cell → Row Cell
  normalized_keys [] row = row
  normalized_keys (key ∷ keys) row = normalized_keys keys (normalized_key key row)

  -- `normalizeRow`. The loop visits the keys that the row has at its start.
  unfoldable pub normalize_row : Row Cell → Row Cell
  normalize_row row = normalized_keys (map (λ e. e.0) row) row

  abbrev pub id_text : Option Cell → String
  id_text (some v) = text_of v
  id_text none = "undefined"

  -- `oldMap`.
  abbrev pub old_map : List (Row Cell) → List (String × Row Cell) → List (String × Row Cell)
  old_map [] m = m
  old_map (row ∷ rows) m = old_map rows (set (id_text (get "id" row)) (normalize_row row) m)

  -- The rows of the file: those without an id are new, the others by their id.
  abbrev pub read_row :
      Row Cell
      → List (Row Cell) × List (String × Row Cell)
      → List (Row Cell) × List (String × Row Cell)
  read_row row (created, m) =
      if is_falsy (get "id" row)
      then (created ++ row ∷ [], m)
      else (created, set (id_text (get "id" row)) row m)

  unfoldable pub read_rows :
      List (Row Cell)
      → List (Row Cell) × List (String × Row Cell)
      → List (Row Cell) × List (String × Row Cell)
  read_rows [] read = read
  read_rows (row ∷ rows) read = read_rows rows (read_row (normalize_row row) read)

  unfoldable pub payload_of : String → Row Cell → Differences → Row Cell
  payload_of id row differences =
      add_columns (changed_fields differences) row columns
        (("id", words id) ∷ set_given "version" (get "version" row) [])

  -- `normalize`, which the comparison applies to each pair of values with its key.
  unfoldable pub compared : String → Cell → Cell → Cell × Cell
  compared key before after =
      if key == "version" || ends_with "_id" key
      then (flag true, flag true)
      else if has key relations
      then (get_relational_value before, get_relational_value after)
      else (before, after)

  module _ (diff : (String → Cell → Cell → Cell × Cell) → Row Cell → Row Cell → Option Differences)
      (display_fields : List String) where
    abbrev pub added : String → Row Cell → Option Differences → DiffResult → DiffResult
    added id row none result = result
    added id row (some differences) result = record result {
      updated = result.updated ++ payload_of id row differences ∷ [];
      table_data =
          result.table_data ++ add_columns display_fields row columns (("id", words id) ∷ []) ∷ [];
    }

    abbrev pub compare_known : String → Row Cell → Option (Row Cell) → DiffResult → DiffResult
    compare_known id row none result = result
    compare_known id row (some old) result = added id row (diff compared old row) result

    unfoldable pub compare_rows :
        List (String × Row Cell) → List (String × Row Cell) → DiffResult → DiffResult
    compare_rows olds [] result = result
    compare_rows olds ((id, row) ∷ news) result =
        compare_rows olds news (compare_known id row (get id olds) result)

    -- `handleFileAsync`, from the rows of the export and those of the file.
    unfoldable pub handle_file : List (Row Cell) → List (Row Cell) → DiffResult
    handle_file before after =
        let (created, news) = read_rows after ([], []) in
        compare_rows (old_map before []) (object_entries news)
          (record { created = created; updated = []; table_data = [] })
