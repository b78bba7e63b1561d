-- ===== src/Tools/Tests.antt =====
-- Classes of which two extend the first, an entity for each of two rows, and errors of a query.
use boar_pack.Base.{
  ℕ, String, ◌≡◌, refl, Option, none, some, List, [], ◌∷◌, number_eq, text_eq, ok, err, arith,
}
use boar_pack.Dict.{get, set, has, get-set_same, get-set_apart}
use boar_pack.Tools.VirtualColumns.{
  Store, Entity, no_item, columns, assign, fill, virtual_column, execute_entities_and_raw_results,
}
use boar_pack.Tools.Shared.{columns-virtual_column}
use boar_pack.Tools.Hydrated.{execute-hydrated_field, field, nth}
use boar_pack.Tools.Exceptions.{
  QueryFailedError, Response, bad_request, set_unique_constraint_message, answer, catch,
}

-- The classes `1` and `2` extend `0`.
abbrev Table : Type 0
Table = List (ℕ × ℕ)

abbrev or_else : Option ℕ → Option ℕ → Option ℕ
or_else (some r) other = some r
or_else none other = other

abbrev finds : Table → ℕ → Option ℕ
finds m c = or_else (get c m) (get 0 m)

abbrev defines : ℕ → Table → ℕ → Table
defines r m c = set c r m

abbrev items : Store Table
items = record { heap = (7, ("total", "sum") ∷ []) ∷ []; fresh = 8; metadata = (0, 7) ∷ [] }

-- The column of a class is also one of the other class that extends the same.
columns-virtual_column_example :
    let after = columns finds defines (virtual_column finds defines none 1 "price" items) in
    (after 1 ≡ ("total", "sum") ∷ ("price", "price") ∷ [])
    × (after 2 ≡ ("total", "sum") ∷ ("price", "price") ∷ [])
unfolding get set
columns-virtual_column_example =
    columns-virtual_column finds defines items none 1 2 "price"
      (λ r m. rw (finds, defines, get-set_same 1 r m) refl)
      (λ r m. rw (finds, defines, get-set_apart 1 2 r m refl, get-set_apart 1 0 r m refl) refl)
      (λ e. ground (arith, e))

abbrev apples : Entity ℕ ℕ
apples = record { class = 0; fields = ("name", some 1) ∷ [] }

abbrev pears : Entity ℕ ℕ
pears = record { class = 0; fields = ("name", some 2) ∷ [] }

abbrev sums : List (List (String × Option ℕ))
sums = (("sum", some 20) ∷ []) ∷ (("sum", some 30) ∷ []) ∷ []

execute-hydrated_field_example :
    (out : List (Entity ℕ ℕ)) × (execute_entities_and_raw_results finds defines items
        (apples ∷ pears ∷ [])
        sums
      ≡ ok out)
    × (field "total" (nth 1 out) ≡ some (some 30))
unfolding get has
execute-hydrated_field_example =
    execute-hydrated_field finds defines items (apples ∷ pears ∷ []) sums 1 pears
      (("sum", some 30) ∷ []) "total" (omega arith) (refl, tt) refl refl

-- Fewer rows than entities.
too_few_rows :
    execute_entities_and_raw_results finds defines items
      (apples ∷ pears ∷ [])
      ((("sum", some 20) ∷ []) ∷ [])
    ≡ err no_item
unfolding execute_entities_and_raw_results fill assign get set
too_few_rows = refl

-- The messages of a filter that extends no other.
abbrev unknown_error : QueryFailedError → Response
unknown_error exception = bad_request "unknown"

custom_message :
    catch unknown_error
      (record { code = some "23505"; constraint = some "user_email" })
      (set_unique_constraint_message "user_email" "The email is taken" [])
    ≡ bad_request "The email is taken"
unfolding catch answer set_unique_constraint_message get set
custom_message = refl

passed_on :
    catch unknown_error (record { code = some "23502"; constraint = none }) []
    ≡ bad_request "unknown"
unfolding catch answer
passed_on = refl
