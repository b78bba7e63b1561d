-- ===== src/Tables/Filters.antt =====
-- `getFiltersSearch`. `Number.isFinite(Number(x))` and the test of a uuid are parameters.
use boar_pack.Base.{
  ℕ, String, ◌≡◌, ◌↔◌, refl, Bool, true, false, not, ◌&&◌, ◌||◌, Option, none, some, List, [], ◌∷◌,
  ◌++◌, map, text_eq, if◌then◌else◌, ◌==◌, all, keep, member, add, remove, member-remove,
  member-add, any, arith, Result, ok, err, Bool-cases, inl, inr,
}
use text.Mathlib.TextPositions.{eq_refl}
use boar_pack.Dict.{get, has}

-- The values of filters; their numbers are natural.
pub data Scalar : Type 0 where
  undefined null : Scalar
  str : String → Scalar
  number : ℕ → Scalar
  flag : Bool → Scalar

pub data Value : Type 0 where
  one : Scalar → Value
  many : List Scalar → Value

pub data Operator : Type 0 where
  contains_low contains equals is_in in_low between : Operator
  greater_or_equals lower_or_equals is_null not_null starts : Operator

-- A column; `data_index` is its field, the parts joined by a dot.
pub record Column : Type 0 where
  pub data_index : String
  pub filter_field : Option String
  pub operator : Operator
  pub filter_operator : Option Operator
  pub numeric : Bool
  pub uuid : Bool

pub record Condition : Type 0 where
  pub field : String
  pub operator : Operator
  pub value : Value

abbrev pub Filters : Type 0
Filters = List (String × Value)

abbrev pub lookup : String → Filters → Value
lookup k m = elim (get k m) [ some v ↦ v | none ↦ one undefined ]

abbrev pub is_filter_value_set : Value → Bool
is_filter_value_set (one undefined) = false
is_filter_value_set (one null) = false
is_filter_value_set (one (str s)) = not (s == "")
is_filter_value_set _ = true

-- No value is given: it is `undefined` or the empty text.
abbrev pub is_missing : Value → Bool
is_missing (one undefined) = true
is_missing (one (str s)) = s == ""
is_missing _ = false

abbrev pub is_defined : Scalar → Bool
is_defined undefined = false
is_defined _ = true

abbrev pub numeric_values : Operator → Value → List Value
numeric_values between (many xs) = map one (keep is_defined xs)
numeric_values _ v = v ∷ []

-- The first and the second element of an array, `undefined` beyond its end.
abbrev pub first : List Scalar → Scalar
first [] = undefined
first (x ∷ xs) = x

abbrev pub second : List Scalar → Scalar
second [] = undefined
second (x ∷ xs) = first xs

abbrev pub first_of : Value → Value
first_of (one x) = one x
first_of (many xs) = one (first xs)

abbrev pub is_true : Value → Bool
is_true (one (flag true)) = true
is_true _ = false

-- An array of `null` alone.
abbrev pub is_null_alone : Value → Bool
is_null_alone (many (null ∷ [])) = true
is_null_alone _ = false

abbrev pub is_null_value : Value → Bool
is_null_value (one null) = true
is_null_value v = is_null_alone v

abbrev pub range_condition : Value → Operator × Value
range_condition (one x) = (between, one x)
range_condition (many xs) =
    if is_defined (first xs)
    then (if is_defined (second xs)
        then (between, many xs)
        else (greater_or_equals, one (first xs)))
    else (lower_or_equals, one (second xs))

abbrev pub rewritten : Operator → Value → Operator × Value
rewritten between v = range_condition v
rewritten is_null v =
    if is_true (first_of v) then (is_null, first_of v) else (not_null, one (flag true))
rewritten not_null v =
    if is_true (first_of v) then (not_null, first_of v) else (is_null, one (flag true))
rewritten is_in v = if is_null_alone v then (is_null, one (flag true)) else (is_in, v)
rewritten in_low v = if is_null_alone v then (is_null, one (flag true)) else (in_low, v)
rewritten equals v = if is_null_value v then (is_null, one (flag true)) else (equals, v)
rewritten op v = (op, v)

-- Some column has the key; the search is made.
abbrev pub is_column : String → List Column → Bool
is_column k cs = any (λ c. c.data_index == k) cs

abbrev pub is_search : Result (List String) (List Condition) → Bool
is_search (ok search) = true
is_search (err keys) = false

module _ (is_finite : Value → Bool) (uuid_validate : String → Bool) where
  abbrev pub is_uuid : Value → Bool
  is_uuid (one (str s)) = uuid_validate s
  is_uuid _ = false

  abbrev pub effective : Filters → Filters → String → Value
  effective base filters k =
      if is_filter_value_set (lookup k filters) then lookup k filters else lookup k base

  abbrev pub operator_of : Column → Operator
  operator_of c = elim c.filter_operator [ some op ↦ op | none ↦ c.operator ]

  abbrev pub field_of : Column → String
  field_of c = elim c.filter_field [
    | some f ↦ if f == "" then c.data_index else f
    | none ↦ c.data_index
  ]

  abbrev pub is_skipped : Column → Value → Bool
  is_skipped c v =
      is_missing v
      || (c.numeric && not (all is_finite (numeric_values (operator_of c) v)))
      || (c.uuid && not (is_uuid v))

  abbrev pub condition_of : Column → Value → List Condition
  condition_of c v =
      if is_skipped c v
      then []
      else (let (op, value) = rewritten (operator_of c) v in
          record { field = field_of c; operator = op; value = value } ∷ [])

  abbrev pub conditions : Filters → Filters → List Column → List Condition
  conditions base filters [] = []
  conditions base filters (c ∷ cs) =
      condition_of c (effective base filters c.data_index) ++ conditions base filters cs

  -- `filterKeys` after the loop.
  abbrev pub keys_left : List Column → List String → List String
  keys_left [] keys = keys
  keys_left (c ∷ cs) keys = keys_left cs (remove c.data_index keys)

  abbrev pub keys_of : Filters → List String → List String
  keys_of [] keys = keys
  keys_of ((k, v) ∷ m) keys = keys_of m (add k keys)

  abbrev pub search_unless : List String → List Condition → Result (List String) (List Condition)
  search_unless [] search = ok search
  search_unless (k ∷ keys) search = err (k ∷ keys)

  -- The conditions under `$and`, or the keys that the error names.
  unfoldable pub get_filters_search :
      Filters → Filters → List Column → Result (List String) (List Condition)
  get_filters_search base filters cs =
      search_unless (keys_left cs (keys_of base (keys_of filters []))) (conditions base filters cs)

  member-keys_left :
      (k : String) (cs : List Column) (keys : List String)
      → member k (keys_left cs keys) ≡ (member k keys && not (is_column k cs))
  member-keys_left k [] keys = ground arith
  member-keys_left k (c ∷ cs) keys =
      ground
        (arith, member-keys_left k cs (remove c.data_index keys), member-remove c.data_index k keys)

  member-keys_of :
      (k : String) (m : Filters) (keys : List String)
      → member k (keys_of m keys) ≡ (has k m || member k keys)
  unfolding has
  member-keys_of k [] keys = refl
  member-keys_of k ((j, v) ∷ m) keys =
      ground (arith, member-keys_of k m (add j keys), member-add j k keys)

  search-none :
      (keys : List String) (search : List Condition)
      → ((k : String) → member k keys ≡ false)
      → is_search (search_unless keys search) ≡ true
  search-none [] search h = refl
  search-none (k ∷ keys) search h = ground (arith, h k, eq_refl k)

  none-search :
      (k : String) (keys : List String) (search : List Condition)
      → is_search (search_unless keys search) ≡ true
      → member k keys ≡ false
  none-search k [] search h = refl
  none-search k (j ∷ keys) search h = ground (arith, h)

  unknown_or :
      (k : String) (base filters : Filters) (cs : List Column)
      → ((has k filters || has k base) ≡ true → is_column k cs ≡ true)
      → member k (keys_left cs (keys_of base (keys_of filters []))) ≡ false
  unknown_or k base filters cs known = elim (Bool-cases (has k filters || has k base)) [
    | inl there ↦
        ground (arith, known there, member-keys_left k cs (keys_of base (keys_of filters [])))
    | inr missing ↦ ground (
      arith,
      missing,
      member-keys_left k cs (keys_of base (keys_of filters [])),
      member-keys_of k base (keys_of filters []),
      member-keys_of k filters [],
    )
  ]

  -- A search is made exactly if each key of the filters and of the base filters is that of a column.
  pub get_filters_search_iff :
      (base filters : Filters) (cs : List Column)
      → (is_search (get_filters_search base filters cs) ≡ true)
        ↔ ((k : String) → (has k filters || has k base) ≡ true → is_column k cs ≡ true)
  unfolding get_filters_search
  get_filters_search_iff base filters cs =
      let keys = keys_of base (keys_of filters []) in
      (
        (λ made k known. ground (
          arith,
          known,
          none-search k (keys_left cs keys) (conditions base filters cs) made,
          member-keys_left k cs keys,
          member-keys_of k base (keys_of filters []),
          member-keys_of k filters [],
        )),
        (λ known.
            search-none (keys_left cs keys) (conditions base filters cs)
              (λ k. unknown_or k base filters cs (known k))),
      )
