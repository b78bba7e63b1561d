-- ===== src/Cards/Requests.antt =====
-- The request of packages/common-frontend/src/components/List/List.tsx, which is made of the same
-- parts as that of a table.
use boar_pack.Base.{String, Bool, Option, none, some, List, [], ◌∷◌, map, Result, ok, ◌>>=◌}
use boar_pack.Tables.Columns.{IndexableRecords, collect_fields_from_columns}
use boar_pack.Tables.Filters.{Value, Filters, get_filters_search}
use boar_pack.Tables.Query.{
  SearchableColumn, column_of, FilterParams, QueryParams, Direction, or_default, sorted_by,
  apply_keyword_to_search, build_join_fields,
}

-- `defaultSort`, which is given a value where it is left out.
abbrev pub default_sort_of : Option (List String) → List String
default_sort_of (some sort) = sort
default_sort_of none = "createdAt" ∷ "DESC" ∷ []

module _ (is_finite : Value → Bool) (uuid_validate : String → Bool) where
  unfoldable pub request :
      FilterParams
      → (sort : List (String × Direction)) (filters : Filters) (default_sort : Option (List String))
        (searchable : List SearchableColumn) (columns : IndexableRecords) (id_column_name : String)
      → Result (List String) QueryParams
  request params sort filters default_sort searchable columns id_column_name = do
    search ←
        get_filters_search is_finite uuid_validate params.base_filters filters
          (map column_of searchable)
    let (select, joined) = build_join_fields params.relations
    ok (record {
      page = params.current;
      limit = params.page_size;
      sort = or_default (sorted_by params.sort_map sort) (some (default_sort_of default_sort));
      s = apply_keyword_to_search is_finite uuid_validate search searchable none params.keyword;
      relations = select;
      fields = collect_fields_from_columns (id_column_name ∷ []) joined columns;
    })
