-- ===== src/Tables/Queries.antt =====
-- When a request of a table is made, and where the words of its keyword are looked for.

use boar_pack.Base.{
  String, ◌≡◌, ◌↔◌, refl, sym, ◌∙◌, Bool, true, false, not, ◌&&◌, ◌||◌, Option, none, some, List,
  [], ◌∷◌, map, text_eq, if◌then◌else◌, ◌==◌, any, any-append, arith, Result, ok, err, ◌>>=◌,
  Option-cases, inl, inr,
}
use boar_pack.Dict.{set, has, has-set}
use boar_pack.Tables.Columns.{IndexableRecords}
use boar_pack.Tables.Filters.{
  Value, one, str, Condition, Filters, get_filters_search, get_filters_search_iff, is_search,
  is_column,
}
use boar_pack.Tables.Query.{
  SearchableColumn, column_of, ColumnsStates, is_hidden, search_field_of, takes, word_condition,
  word_search, FilterParams, QueryParams, Direction, spread, get_table_data_query_params,
}

has-spread :
    (k : String) (more filters : Filters)
    → has k (spread filters more) ≡ (has k filters || has k more)
unfolding has
has-spread k [] filters = ground arith
has-spread k ((j, v) ∷ more) filters =
    ground (arith, has-spread k more (set j v filters), has-set k j v filters)

-- A request is made.
abbrev pub is_query : Result (List String) QueryParams → Bool
is_query (ok q) = true
is_query (err keys) = false

module _ (is_finite : Value → Bool) (uuid_validate : String → Bool) where
  is_query-is_search :
      (r : Result (List String) (List Condition)) (f : List Condition → QueryParams)
      → is_query (r >>= λ search. ok (f search)) ≡ is_search r
  is_query-is_search (ok search) f = refl
  is_query-is_search (err keys) f = refl

  -- A request is made exactly if each key of the filters of the table, of the search form and of
  -- the base filters is that of a searchable column; sort, keyword, join and columns do not matter.
  pub get_table_data_query_params_iff :
      (params : FilterParams) (sort : List (String × Direction)) (filters : Filters)
      (default_sort : Option (List String)) (searchable : List SearchableColumn)
      (columns : IndexableRecords) (id_column_names : List String) (states : Option ColumnsStates)
      → (is_query (
            get_table_data_query_params is_finite uuid_validate params sort filters default_sort
              searchable columns id_column_names states)
          ≡ true)
        ↔ ((k : String)
            → (has k filters || has k params.search_form || has k params.base_filters) ≡ true
            → is_column k (map column_of searchable) ≡ true)
  unfolding get_table_data_query_params
  get_table_data_query_params_iff params sort filters default_sort searchable columns
        id_column_names states =
      let merged = spread filters params.search_form in
      let cs = map column_of searchable in
      let made = get_filters_search is_finite uuid_validate params.base_filters merged cs in
      let (only, if_known) =
        get_filters_search_iff is_finite uuid_validate params.base_filters merged cs in
      (
        (λ h k given.
            only (sym (is_query-is_search made _) ∙ h) k
              (ground (arith, given, has-spread k params.search_form filters))),
        (λ known.
            is_query-is_search made _
            ∙ if_known (λ k given.
              known k (ground (arith, given, has-spread k params.search_form filters)))),
      )

  -- The column is shown, takes the word and is searched under the field.
  abbrev pub is_looked_in : Option ColumnsStates → String → String → SearchableColumn → Bool
  is_looked_in states word field c =
      not (is_hidden states c)
      && takes is_finite uuid_validate c word
      && elim (search_field_of c.search_field c.field) [ some f ↦ f == field | none ↦ false ]

  if_any :
      (shown taken : Bool) (c : Condition) (field : String)
      → any (λ k. k.field == field) (if shown && taken then c ∷ [] else [])
        ≡ (shown && taken && c.field == field)
  if_any shown taken c field = ground arith

  any-word_condition :
      (states : Option ColumnsStates) (word field : String) (c : SearchableColumn)
      → any (λ k. k.field == field) (word_condition is_finite uuid_validate states word c)
        ≡ is_looked_in states word field c
  any-word_condition states word field c =
      elim (Option-cases (search_field_of c.search_field c.field)) [
        | inl missing ↦ rw (missing, word_condition, is_looked_in) (ground arith)
        | inr (f, given) ↦
            rw (given, word_condition, is_looked_in)
              (if_any (not (is_hidden states c)) (takes is_finite uuid_validate c word)
                (record { field = f; operator = c.operator; value = one (str word) }) field)
      ]

  -- The fields that a word is looked for in are exactly the search fields of the columns that are
  -- not hidden and take the word: a column without a search field is left out, and a numeric or
  -- uuid column where the word is none.
  pub word_search-any :
      (states : Option ColumnsStates) (word field : String) (cs : List SearchableColumn)
      → any (λ k. k.field == field) (word_search is_finite uuid_validate states word cs)
        ≡ any (is_looked_in states word field) cs
  word_search-any states word field [] = refl
  word_search-any states word field (c ∷ cs) =
      any-append (λ k. k.field == field) (word_condition is_finite uuid_validate states word c)
        (word_search is_finite uuid_validate states word cs)
      ∙ ground (arith, any-word_condition states word field c, word_search-any states word field cs)
