-- ===== src/Tables/Tests.antt =====
-- The search of a table at concrete inputs.
use boar_pack.Base.{
  String, ◌≡◌, ◌↔◌, refl, Bool, true, false, ◌&&◌, ◌||◌, none, some, [], ◌∷◌, map, text_eq, ok, any,
  member, Distinct, join,
}
use boar_pack.Dict.{get, set, has}
use boar_pack.Tables.Filters.{
  Value, one, many, number, undefined, Column, between, equals, greater_or_equals, Filters,
  get_filters_search, is_column,
}
use boar_pack.Tables.Columns.{
  name, path, unset, leaf, group, IndexableRecords, end, next, is_asked, build_fields_from_columns,
  build_fields_from_columns_for_descriptions_display,
}
use boar_pack.Tables.Fields.{has_name, visited, build_fields_from_columns-member}
use boar_pack.Tables.Query.{
  SearchableColumn, by_field, column_of, ColumnsStates, FilterParams, get_table_data_query_params,
}
use boar_pack.Tables.Queries.{is_query, get_table_data_query_params_iff}
use boar_pack.Tables.Sets.{get_columns_states, check_parent_visibility, on_change}
use boar_pack.Tables.Hidden.{hides, shows, get_columns_states-some_hides}
use boar_pack.Tables.Visibility.{first, on_change-IsIn}

abbrev any_number : Value → Bool
any_number v = true

abbrev no_uuid : String → Bool
no_uuid s = false

abbrev price : Column
price = record {
  data_index = "price";
  filter_field = none;
  operator = between;
  filter_operator = none;
  numeric = true;
  uuid = false;
}

abbrev no_filters : Filters
no_filters = []

abbrev from_three : Filters
from_three = ("price", many (number 3 ∷ undefined ∷ [])) ∷ []

open_range :
    get_filters_search any_number no_uuid [] from_three (price ∷ [])
    ≡ ok (record { field = "price"; operator = greater_or_equals; value = one (number 3) } ∷ [])
unfolding get_filters_search get
open_range = refl

-- A group of two columns, one of them in a group of its own.
abbrev prices : IndexableRecords
prices =
    next
      (group (name "prices") unset (
        next (leaf (name "bid") unset) (
          next (group (name "deep") unset (next (leaf (path ("deep" ∷ "ask" ∷ [])) unset) end))
            end)))
      (next (leaf (name "id") unset) end)

price_field_asked :
    (member "deep" (build_fields_from_columns ("id" ∷ []) [] prices [])
      ≡ (any (λ c. has_name "deep" c.0) (visited prices) && is_asked ("id" ∷ []) [] "deep"))
    × Distinct (build_fields_from_columns ("id" ∷ []) [] prices [])
price_field_asked = build_fields_from_columns-member ("id" ∷ []) [] prices "deep"

descriptions :
    build_fields_from_columns_for_descriptions_display prices []
    ≡ "bid" ∷ "deep" ∷ "prices" ∷ "id" ∷ []
unfolding build_fields_from_columns_for_descriptions_display
descriptions = refl

abbrev id_column : SearchableColumn
id_column = record {
  field = "id" ∷ [];
  search_field = by_field;
  operator = equals;
  filter_field = none;
  filter_operator = none;
  numeric = true;
  uuid = false;
}

abbrev first_page : FilterParams
first_page = record {
  current = some 1;
  page_size = some 10;
  keyword = some "1 2";
  base_filters = [];
  relations = [];
  sort_map = [];
  search_form = [];
}

get_table_data_query_params_iff_example :
    (is_query (
        get_table_data_query_params any_number no_uuid first_page [] no_filters none
          (id_column ∷ [])
          prices
          ("id" ∷ [])
          none)
      ≡ true)
    ↔ ((k : String)
        → (has k no_filters || has k first_page.search_form || has k first_page.base_filters) ≡ true
        → is_column k (map column_of (id_column ∷ [])) ≡ true)
get_table_data_query_params_iff_example =
    get_table_data_query_params_iff any_number no_uuid first_page [] no_filters none
      (id_column ∷ []) prices ("id" ∷ []) none

get_columns_states-some_hides_example :
    (get "prices" (get_columns_states ("id" ∷ []) prices []).0 ≡ some false)
    × ((get_columns_states ("id" ∷ []) prices []).1 ≡ true)
unfolding hides shows join
get_columns_states-some_hides_example = get_columns_states-some_hides ("id" ∷ []) prices "prices"

abbrev bid_shown : ColumnsStates
bid_shown = ("bid", true) ∷ []

child_shows_parent :
    (get "prices" (on_change prices bid_shown) ≡ some true)
    × (get "bid" (on_change prices bid_shown) ≡ some true)
unfolding get
child_shows_parent = on_change-IsIn bid_shown "bid" first refl refl

-- A column of a group in a group shows its group and not the group around.
nested_change :
    (get "deep" (on_change prices (("deep,ask", true) ∷ [])) ≡ some true)
    × (get "prices" (on_change prices (("prices", false) ∷ ("deep,ask", true) ∷ [])) ≡ some false)
unfolding get on_change check_parent_visibility set join
nested_change = (refl, refl)
