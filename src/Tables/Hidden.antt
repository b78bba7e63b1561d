-- ===== src/Tables/Hidden.antt =====
-- Which columns a set of columns hides.
use boar_pack.Base.{
  Option, none, some, if◌then◌else◌, String, ◌≡◌, refl, ap, ◌∙◌, Bool, false, not, ◌&&◌, ◌||◌, List,
  [], text_eq, ◌==◌, arith,
}
use boar_pack.Dict.{get, get-set}
use boar_pack.Tables.Columns.{DataIndex, IndexableRecord, leaf, group, IndexableRecords, end, next}
use boar_pack.Tables.Query.{ColumnsStates}
use boar_pack.Tables.Sets.{
  index_key, is_indexed, is_shown_with, settled, get_columns_states, column_states,
}

module _ (shown_cols : List String) where
  -- A column has an index, and is in the set or has a child that shows.
  unfoldable mutual
    pub shows : IndexableRecord → Bool
    shows (leaf index editable) = is_shown_with shown_cols index false
    shows (group index editable children) = is_shown_with shown_cols index (some_shows children)

    pub some_shows : IndexableRecords → Bool
    some_shows end = false
    some_shows (next col cols) = shows col || some_shows cols

  abbrev pub hides_under : String → DataIndex → Bool → Bool
  hides_under k index shown = is_indexed index && not shown && index_key index == k

  -- A column at some depth has the index and does not show.
  unfoldable mutual
    pub hides : String → IndexableRecord → Bool
    hides k (leaf index editable) = hides_under k index (is_shown_with shown_cols index false)
    hides k (group index editable children) =
        some_hides k children
        || hides_under k index (is_shown_with shown_cols index (some_shows children))

    pub some_hides : String → IndexableRecords → Bool
    some_hides k end = false
    some_hides k (next col cols) = hides k col || some_hides k cols

  settled_shown :
      (index : DataIndex) (state : ColumnsStates) (shown : Bool)
      → (settled shown_cols index (state, shown)).1 ≡ is_shown_with shown_cols index shown
  settled_shown index state shown = ground arith

  -- The state of a column that is hidden, over what it was.
  abbrev hidden_if : Bool → Option Bool → Option Bool
  hidden_if hidden before = if hidden then some false else before

  get-settled :
      (k : String) (index : DataIndex) (state : ColumnsStates) (shown : Bool)
      → get k (settled shown_cols index (state, shown)).0
        ≡ hidden_if (hides_under k index (is_shown_with shown_cols index shown)) (get k state)
  get-settled k index state shown = ground (arith, get-set (index_key index) k false state)

  mutual
    unfolding get_columns_states shows

    get_columns_states-some_shows :
        (cols : IndexableRecords) (state : ColumnsStates)
        → (get_columns_states shown_cols cols state).1 ≡ some_shows cols
    get_columns_states-some_shows end state = refl
    get_columns_states-some_shows (next col cols) state = ground (
      arith,
      column_states-shows col state,
      get_columns_states-some_shows cols (column_states shown_cols col state).0,
    )

    column_states-shows :
        (col : IndexableRecord) (state : ColumnsStates)
        → (column_states shown_cols col state).1 ≡ shows col
    column_states-shows (leaf index editable) state = settled_shown index state false
    column_states-shows (group index editable children) state =
        let before = get_columns_states shown_cols children state in
        settled_shown index before.0 before.1
        ∙ ap (is_shown_with shown_cols index) (get_columns_states-some_shows children state)

  mutual
    unfolding get_columns_states hides

    get-get_columns_states :
        (k : String) (cols : IndexableRecords) (state : ColumnsStates)
        → get k (get_columns_states shown_cols cols state).0
          ≡ hidden_if (some_hides k cols) (get k state)
    get-get_columns_states k end state = ground arith
    get-get_columns_states k (next col cols) state = ground (
      arith,
      get-column_states k col state,
      get-get_columns_states k cols (column_states shown_cols col state).0,
    )

    get-column_states :
        (k : String) (col : IndexableRecord) (state : ColumnsStates)
        → get k (column_states shown_cols col state).0 ≡ hidden_if (hides k col) (get k state)
    get-column_states k (leaf index editable) state = get-settled k index state false
    get-column_states k (group index editable children) state =
        let before = get_columns_states shown_cols children state in
        get-settled k index before.0 before.1
        ∙ ground (
          arith,
          get-get_columns_states k children state,
          ap (λ x. hides_under k index (is_shown_with shown_cols index x))
              (get_columns_states-some_shows children state),
        )

  -- A set of columns says of exactly those indices of the columns, at any depth, that they are hidden
  -- which are not in the set and have no child that shows, and says nothing of other keys; a column
  -- without an index never shows, also if its children do. The answer is whether one of the columns
  -- shows.
  pub get_columns_states-some_hides :
      (cols : IndexableRecords) (k : String)
      → (get k (get_columns_states shown_cols cols []).0
          ≡ (if some_hides k cols then some false else none))
        × ((get_columns_states shown_cols cols []).1 ≡ some_shows cols)
  unfolding get
  get_columns_states-some_hides cols k =
      (get-get_columns_states k cols [], get_columns_states-some_shows cols [])
