-- ===== src/Descriptions/Sections.antt =====
-- `columnsToDescriptionItemProps` of packages/common-frontend/src/components/Descriptions/
-- useDescriptionColumns.ts, and the counts of errors that Descriptions.tsx beside it keeps for each
-- section. What is wrong with the value of a field is a parameter.
use boar_pack.Base.{
  ℕ, ◌+◌, String, Bool, not, Option, List, [], ◌∷◌, ◌++◌, map, text_eq, number_eq, ◌==◌,
  if◌then◌else◌, length,
}
use boar_pack.Dict.{get, set}

-- `dataIndex`: it is not given, a name, or the names of a path.
pub data DataIndex : Type 0 where
  no_index : DataIndex
  name : String → DataIndex
  path : List String → DataIndex

-- A column, of which `is_option` says that its value type is `option`, or a column with children.
mutual
  pub data Column : Type 0 where
    leaf : (index : DataIndex) → (is_option : Bool) → Column
    group :
        (title : Option String)
        → (index : DataIndex) → (is_option : Bool) → (children : Columns) → Column

  pub data Columns : Type 0 where
    end : Columns
    next : Column → Columns → Columns

-- `TDescriptionSection`; of its columns the `dataIndex` is kept.
pub record Section : Type 0 where
  pub title : Option String
  pub key : String
  pub columns : List DataIndex

-- `String(…)` of the name or the first of the path.
abbrev pub key_of : DataIndex → String
key_of no_index = "undefined"
key_of (name s) = s
key_of (path []) = "undefined"
key_of (path (s ∷ rest)) = s

-- The loop of `columnsToDescriptionItemProps`, over the columns of its base section and the other
-- sections, and the body of the loop.
unfoldable mutual
  pub collect : Columns → List DataIndex → List Section → List DataIndex × List Section
  collect end columns result = (columns, result)
  collect (next col cols) columns result =
      let (columns', result') = collect_column col columns result in collect cols columns' result'

  pub collect_column : Column → List DataIndex → List Section → List DataIndex × List Section
  collect_column (leaf index is_option) columns result =
      if is_option then (columns, result) else (columns ++ index ∷ [], result)
  collect_column (group title index is_option children) columns result =
      let (inner, others) = collect children [] [] in
      if is_option then (columns, result) else (
        columns,
        result ++ record { title = title; key = key_of index; columns = inner } ∷ others,
      )

unfoldable pub columns_to_description_item_props : Columns → Option String → String → List Section
columns_to_description_item_props cols main_title key =
    let (columns, result) = collect cols [] [] in
    record { title = main_title; key = key; columns = columns } ∷ result

-- The messages at a field, and how many columns of a section have some.
module _ (errors_of : DataIndex → List String) where
  abbrev pub has_errors : DataIndex → Bool
  has_errors i = not (length (errors_of i) == 0)

  abbrev pub error_count : List DataIndex → ℕ
  error_count [] = 0
  error_count (i ∷ columns) = (if has_errors i then 1 else 0) + error_count columns

  -- `newErrorsPerSection` of `handleSubmit`.
  abbrev pub set_counts : List Section → List (String × ℕ) → List (String × ℕ)
  set_counts [] counts = counts
  set_counts (s ∷ sections) counts = set_counts sections (set s.key (error_count s.columns) counts)

  unfoldable pub errors_per_section : List Section → List (String × ℕ)
  errors_per_section sections = set_counts sections []

  -- `errorsNumber` of `onValuesChange`, for the section of the field.
  abbrev pub errors_number : List DataIndex → ℕ
  errors_number [] = 0
  errors_number (i ∷ columns) = length (errors_of i) + errors_number columns

  unfoldable pub on_values_change : Section → List (String × ℕ) → List (String × ℕ)
  on_values_change s counts = set s.key (errors_number s.columns) counts

-- The count at the badge of each section's tab.
unfoldable pub badges : List Section → List (String × ℕ) → List (Option ℕ)
badges sections counts = map (λ s. get s.key counts) sections
