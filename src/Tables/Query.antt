-- ===== src/Tables/Query.antt =====
-- The parameters of a request for the rows of a table: `applyKeywordToSearch` and `buildJoinFields`
-- of packages/common-frontend/src/components/Table/tableTools.ts, and getTableDataQueryParams.ts
-- beside it. The search is kept as conditions, where the code writes them as JSON.
use boar_pack.Base.{
  ℕ, String, ◌<>◌, Bool, false, not, ◌&&◌, Option, none, some, List, [], ◌∷◌, ◌++◌, map, text_eq,
  if◌then◌else◌, ◌==◌, add, join, split, Result, ok, ◌>>=◌,
}
use boar_pack.Dict.{get, set}
use boar_pack.Tables.Columns.{IndexableRecords, collect_fields_from_columns}
use boar_pack.Tables.Filters.{
  Value, one, str, Operator, Column, Condition, Filters, get_filters_search,
}

-- `searchField`: not given, `null`, or a text.
pub data SearchField : Type 0 where
  by_field not_searched : SearchField
  searched : String → SearchField

-- `TSearchableColumn`; `field` is a text or an array of texts.
pub record SearchableColumn : Type 0 where
  pub field : List String
  pub search_field : SearchField
  pub operator : Operator
  pub filter_field : Option String
  pub filter_operator : Option Operator
  pub numeric : Bool
  pub uuid : Bool

-- What `getFiltersSearch` reads of a column.
abbrev pub column_of : SearchableColumn → Column
column_of c = record {
  data_index = join "." c.field;
  filter_field = c.filter_field;
  operator = c.operator;
  filter_operator = c.filter_operator;
  numeric = c.numeric;
  uuid = c.uuid;
}

-- The parts of `$and`: the condition of a filter, or the conditions of a word under `$or`.
pub data Clause : Type 0 where
  filter : Condition → Clause
  any_of : List Condition → Clause

-- Whether each column is shown, by its names behind commas.
abbrev pub ColumnsStates : Type 0
ColumnsStates = List (String × Bool)

abbrev pub is_hidden : Option ColumnsStates → SearchableColumn → Bool
is_hidden none c = false
is_hidden (some states) c = elim (get (join "," c.field) states) [
  | some shown ↦ not shown
  | none ↦ false
]

-- The field that a word is looked for in, unless `searchField` is `null`.
abbrev pub search_field_of : SearchField → List String → Option String
search_field_of not_searched field = none
search_field_of by_field field = some (join "." field)
search_field_of (searched s) field = some (if s == "" then join "." field else s)

module _ (is_finite : Value → Bool) (uuid_validate : String → Bool) where
  abbrev pub takes : SearchableColumn → String → Bool
  takes c word =
      not (c.numeric && not (is_finite (one (str word))))
      && not (c.uuid && not (uuid_validate word))

  abbrev pub word_condition : Option ColumnsStates → String → SearchableColumn → List Condition
  word_condition states word c = elim (search_field_of c.search_field c.field) [
    | some field ↦
        if not (is_hidden states c) && takes c word
        then record { field = field; operator = c.operator; value = one (str word) } ∷ []
        else []
    | none ↦ []
  ]

  abbrev pub word_search : Option ColumnsStates → String → List SearchableColumn → List Condition
  word_search states word [] = []
  word_search states word (c ∷ cs) = word_condition states word c ++ word_search states word cs

  unfoldable pub apply_keyword_to_search :
      List Condition → List SearchableColumn → Option ColumnsStates → Option String → List Clause
  apply_keyword_to_search filters cs states none = map filter filters
  apply_keyword_to_search filters cs states (some keyword) =
      if keyword == ""
      then map filter filters
      else map filter filters
        ++ map (λ word. any_of (word_search states word cs)) (split b' ' keyword)

-- `QueryJoin`.
pub record Relation : Type 0 where
  pub field : String
  pub select : Option (List String)

abbrev pub join_select : Relation → String
join_select r = elim r.select [ some names ↦ r.field <> "||" <> join "," names | none ↦ r.field ]

abbrev pub join_fields : List Relation → List String → List String
join_fields [] fields = fields
join_fields (r ∷ rs) fields = join_fields rs (add r.field fields)

-- `joinSelect` and `joinFields`; without a join there are none.
unfoldable pub build_join_fields : List Relation → List String × List String
build_join_fields relations = (map join_select relations, join_fields relations [])

pub data Direction : Type 0 where
  ascend descend unsorted : Direction

abbrev pub direction_name : Direction → String
direction_name ascend = "ASC"
direction_name _ = "DESC"

-- `params`, with the filters of the search form apart.
pub record FilterParams : Type 0 where
  pub current : Option ℕ
  pub page_size : Option ℕ
  pub keyword : Option String
  pub base_filters : Filters
  pub relations : List Relation
  pub sort_map : List (String × String)
  pub search_form : Filters

pub record QueryParams : Type 0 where
  pub page : Option ℕ
  pub limit : Option ℕ
  pub sort : List String
  pub s : List Clause
  pub relations : List String
  pub fields : List String

abbrev pub sort_key : List (String × String) → String → String
sort_key sort_map key = elim (get key sort_map) [
  | some other ↦ if other == "" then key else other
  | none ↦ key
]

abbrev pub sorted_by : List (String × String) → List (String × Direction) → List String
sorted_by sort_map [] = []
sorted_by sort_map ((key, direction) ∷ sort) =
    (sort_key sort_map key <> "," <> direction_name direction) ∷ sorted_by sort_map sort

-- Without a sort of the user, the default sort, if there is one.
abbrev pub or_default : List String → Option (List String) → List String
or_default [] (some default_sort) = join "," default_sort ∷ []
or_default sort _ = sort

-- `{...filters, ...more}`.
abbrev pub spread : Filters → Filters → Filters
spread filters [] = filters
spread filters ((k, v) ∷ more) = spread (set k v filters) more

module _ (is_finite : Value → Bool) (uuid_validate : String → Bool) where
  -- The path parameters are passed on beside these.
  unfoldable pub get_table_data_query_params :
      FilterParams
      → (sort : List (String × Direction)) (filters : Filters) (default_sort : Option (List String))
        (searchable : List SearchableColumn) (columns : IndexableRecords)
        (id_column_names : List String) (states : Option ColumnsStates)
      → Result (List String) QueryParams
  get_table_data_query_params params sort filters default_sort searchable columns id_column_names
        states =
      do
        search ←
            get_filters_search is_finite uuid_validate params.base_filters
              (spread filters params.search_form) (map column_of searchable)
        let (select, joined) = build_join_fields params.relations
        ok (record {
          page = params.current;
          limit = params.page_size;
          sort = or_default (sorted_by params.sort_map sort) default_sort;
          s =
              apply_keyword_to_search is_finite uuid_validate search searchable states
                params.keyword;
          relations = select;
          fields = collect_fields_from_columns id_column_names joined columns;
        })
