-- ===== src/Tables/Visibility.antt =====
-- Which columns a change of the visibility shows.
use boar_pack.Base.{
  String, ◌≡◌, refl, ◌∙◌, Bool, true, false, ◌||◌, some, text_eq, ==_refl, arith, Bool-cases, inl,
  inr,
}
use boar_pack.Dict.{get, get-set}
use boar_pack.Tables.Columns.{
  DataIndex, Editable, IndexableRecord, leaf, group, IndexableRecords, end, next,
}
use boar_pack.Tables.Query.{ColumnsStates}
use boar_pack.Tables.Sets.{index_key, is_shown, check_parent_visibility, check_column, on_change}

-- The column stands in the columns, at some depth.
pub data IsIn : IndexableRecord → IndexableRecords → Type 0 where
  first : {col : IndexableRecord} {cols : IndexableRecords} → IsIn col (next col cols)
  later :
      {col other : IndexableRecord} {cols : IndexableRecords}
      → IsIn col cols
      → IsIn col (next other cols)
  inside :
      {col : IndexableRecord} {index : DataIndex} {editable : Editable}
      {children cols : IndexableRecords}
      → IsIn col children
      → IsIn col (next (group index editable children) cols)

-- One of these columns is shown, their own children aside.
abbrev pub index_of : IndexableRecord → DataIndex
index_of (leaf index editable) = index
index_of (group index editable children) = index

abbrev pub is_some_shown : IndexableRecords → ColumnsStates → Bool
is_some_shown end value = false
is_some_shown (next col cols) value = is_shown (index_of col) value || is_some_shown cols value

abbrev pub Shows : ColumnsStates → String → Type 0
Shows value k = get k value ≡ some true

mutual
  unfolding check_parent_visibility

  check_keeps :
      (cols : IndexableRecords) (value : ColumnsStates) (k : String)
      → Shows value k
      → Shows (check_parent_visibility cols value).0 k
  check_keeps end value k h = h
  check_keeps (next col cols) value k h =
      check_keeps cols (check_column col value).0 k (check_column_keeps col value k h)

  check_column_keeps :
      (col : IndexableRecord) (value : ColumnsStates) (k : String)
      → Shows value k
      → Shows (check_column col value).0 k
  check_column_keeps (leaf index editable) value k h = h
  check_column_keeps (group index editable children) value k h = ground (
    arith,
    check_keeps children value k h,
    get-set (index_key index) k true (check_parent_visibility children value).0,
  )

is_shown_keeps :
    (index : DataIndex) (value after : ColumnsStates)
    → ((k : String) → Shows value k → Shows after k)
    → is_shown index value ≡ true
    → is_shown index after ≡ true
is_shown_keeps index value after keeps h =
    ground (arith, h, keeps (index_key index) (ground (arith, h)))

is_some_shown_keeps :
    (cols : IndexableRecords) (value after : ColumnsStates)
    → ((k : String) → Shows value k → Shows after k)
    → is_some_shown cols value ≡ true
    → is_some_shown cols after ≡ true
is_some_shown_keeps end value after keeps h = h
is_some_shown_keeps (next col cols) value after keeps h = ground (
  arith,
  h,
  is_shown_keeps (index_of col) value after keeps,
  is_some_shown_keeps cols value after keeps,
)

check_column-is_shown :
    (col : IndexableRecord) (value : ColumnsStates)
    → (check_column col value).1 ≡ is_shown (index_of col) value
unfolding check_parent_visibility
check_column-is_shown (leaf index editable) value = refl
check_column-is_shown (group index editable children) value = refl

check-is_some_shown :
    (cols : IndexableRecords) (value : ColumnsStates)
    → is_some_shown cols value ≡ true
    → (check_parent_visibility cols value).1 ≡ true
unfolding check_parent_visibility
check-is_some_shown end value h = ground (arith, h)
check-is_some_shown (next col cols) value h = elim (Bool-cases (is_shown (index_of col) value)) [
  | inl here ↦ rw (check_column-is_shown col value ∙ here) refl
  | inr other ↦ ground (
    arith,
    check-is_some_shown cols (check_column col value).0 (
        is_some_shown_keeps cols value (check_column col value).0 (check_column_keeps col value)
          (ground (arith, h, other))),
  )
]

-- A parent shows after the visit of its children, if a child was shown.
check_group-Shows :
    (index : DataIndex) (editable : Editable) (children : IndexableRecords) (value : ColumnsStates)
    → is_some_shown children value ≡ true
    → Shows (check_column (group index editable children) value).0 (index_key index)
unfolding check_parent_visibility
check_group-Shows index editable children value h = rw (check-is_some_shown children value h) (
    get-set (index_key index) (index_key index) true (check_parent_visibility children value).0
    ∙ rw (==_refl (index_key index)) refl)

check_children-Shows :
    (index : DataIndex) (editable : Editable) (children : IndexableRecords) (value : ColumnsStates)
    (k : String)
    → Shows (check_parent_visibility children value).0 k
    → Shows (check_column (group index editable children) value).0 k
unfolding check_parent_visibility
check_children-Shows index editable children value k h =
    ground (arith, h, get-set (index_key index) k true (check_parent_visibility children value).0)

check-IsIn :
    {index : DataIndex} {editable : Editable} {children cols : IndexableRecords}
    (value : ColumnsStates)
    → IsIn (group index editable children) cols
    → is_some_shown children value ≡ true
    → Shows (check_parent_visibility cols value).0 (index_key index)
unfolding check_parent_visibility
check-IsIn {index = index} {editable = editable} {children = children} value (first {cols = cols})
      h =
    check_keeps cols (check_column (group index editable children) value).0 (index_key index)
      (check_group-Shows index editable children value h)
check-IsIn {children = children} value (later {other = other} place) h =
    check-IsIn (check_column other value).0 place (
      is_some_shown_keeps children value (check_column other value).0
        (check_column_keeps other value) h)
check-IsIn {index = index} value
      (inside {index = outer} {editable = editable} {children = inner} {cols = cols} place) h =
    check_keeps cols (check_column (group outer editable inner) value).0 (index_key index)
      (check_children-Shows outer editable inner value (index_key index) (check-IsIn value place h))

-- After a change the parent of a column that the change shows is shown, at any depth, and what the
-- change shows stays shown.
pub on_change-IsIn :
    {index : DataIndex} {editable : Editable} {children cols : IndexableRecords}
    (value : ColumnsStates) (k : String)
    → IsIn (group index editable children) cols
    → is_some_shown children value ≡ true
    → Shows value k
    → Shows (on_change cols value) (index_key index) × Shows (on_change cols value) k
unfolding on_change
on_change-IsIn {cols = cols} value k place h shown =
    (check-IsIn value place h, check_keeps cols value k shown)
