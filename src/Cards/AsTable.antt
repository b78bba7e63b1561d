-- ===== src/Cards/AsTable.antt =====
-- The request of a list against that of a table.
use boar_pack.Base.{
  arith, String, text_eq, ◌≡◌, ◌↔◌, refl, sym, ap, ◌∙◌, Bool, true, Option, none, some, List, [],
  ◌∷◌, map, ◌||◌,
}
use boar_pack.Dict.{has}
use boar_pack.Tables.Columns.{IndexableRecords}
use boar_pack.Tables.Filters.{Value, Filters, is_column}
use boar_pack.Tables.Query.{
  SearchableColumn, column_of, FilterParams, Direction, get_table_data_query_params,
}
use boar_pack.Tables.Queries.{is_query, get_table_data_query_params_iff}
use boar_pack.Cards.Requests.{default_sort_of, request}

-- The parameters without a search form, which a list has not.
abbrev without_form : FilterParams → FilterParams
without_form params = record params { search_form = [] }

module _ (is_finite : Value → Bool) (uuid_validate : String → Bool) where
  -- A list asks for what a table with the same columns asks for, if that has no search form, hides no
  -- column, and sorts by the default sort of a list where it is given none.
  pub request-get_table_data_query_params :
      (params : FilterParams) (sort : List (String × Direction)) (filters : Filters)
      (default_sort : Option (List String)) (searchable : List SearchableColumn)
      (columns : IndexableRecords) (id_column_name : String)
      → request is_finite uuid_validate params sort filters default_sort searchable columns
          id_column_name
        ≡ get_table_data_query_params is_finite uuid_validate
            (without_form params)
            sort
            filters
            (some (default_sort_of default_sort))
            searchable
            columns
            (id_column_name ∷ [])
            none
  unfolding request get_table_data_query_params
  request-get_table_data_query_params params sort filters default_sort searchable columns
        id_column_name =
      refl

  -- A request of a list is made exactly if each key of the filters and of the base filters is that of
  -- a searchable column.
  pub request_iff :
      (params : FilterParams) (sort : List (String × Direction)) (filters : Filters)
      (default_sort : Option (List String)) (searchable : List SearchableColumn)
      (columns : IndexableRecords) (id_column_name : String)
      → (is_query (
            request is_finite uuid_validate params sort filters default_sort searchable columns
              id_column_name)
          ≡ true)
        ↔ ((k : String)
            → (has k filters || has k params.base_filters) ≡ true
            → is_column k (map column_of searchable) ≡ true)
  unfolding has
  request_iff params sort filters default_sort searchable columns id_column_name =
      let same = ap is_query (
        request-get_table_data_query_params params sort filters default_sort searchable columns
          id_column_name) in
      let (only, if_known) =
        get_table_data_query_params_iff is_finite uuid_validate (without_form params) sort filters
          (some (default_sort_of default_sort)) searchable columns (id_column_name ∷ []) none in
      (
        λ h k e. only (sym same ∙ h) k (ground (arith, e)),
        λ h. same ∙ if_known (λ k e. h k (ground (arith, e))),
      )
