-- ===== src/Imports/Conflicts.antt =====
-- packages/common-frontend/src/components/ChangesModal/ConflictsTab.tsx: the values that stand for
-- conflicting records, and what becomes of them. The values `null` and `undefined`, a number as a
-- value and the dictionaries of relations are parameters.
use boar_pack.Base.{
  ℕ, zero, suc, String, ◌<>◌, not, Option, none, some, List, [], ◌∷◌, map, keep, text_eq,
  without_first, ends_with,
}
use boar_pack.Dict.{get, set, delete}
use boar_pack.Imports.Modal.{Row, Conflict, ConflictField}

abbrev pub get_current_key : String → String
get_current_key field = field <> "-current"

abbrev pub get_normalized_key : String → String
get_normalized_key field = without_first "_id" field

module _ {V : Type 0} (null : V) (relations : List (String × (V → Option V))) where
  unfoldable pub get_relational_data : String → V → V
  get_relational_data key value = elim (get key relations) [
    | some data_of ↦ elim (data_of value) [ some v ↦ v | none ↦ null ]
    | none ↦ value
  ]

  -- The object of a conflict: per field the imported value, and the current one under its own key.
  unfoldable pub initial_row : List (ConflictField V) → Row V → Row V
  initial_row [] acc = acc
  initial_row (f ∷ fields) acc =
      let key = get_normalized_key f.field in
      initial_row fields (
        set (get_current_key key) (get_relational_data key f.current_value)
          (set key (get_relational_data key f.imported_value) acc))

  unfoldable pub initial_rows : List (Conflict V) → List (Row V)
  initial_rows conflicts = map (λ c. initial_row c.fields []) conflicts

  -- The state of the tab: what it has since it was first shown, or the initial value.
  unfoldable pub tab_rows : Option (List (Row V)) → List (Conflict V) → List (Row V)
  tab_rows (some rows) conflicts = rows
  tab_rows none conflicts = initial_rows conflicts

module _ {V : Type 0} (undefined : V) where
  abbrev pub value_at : String → Row V → V
  value_at key row = elim (get key row) [ some v ↦ v | none ↦ undefined ]

  -- The update of one object by `applyCurrentValue`.
  unfoldable pub take_current : String → Row V → Row V
  take_current field row =
      let key = get_normalized_key field in set key (value_at (get_current_key key) row) row

  -- `applyCurrentValue`; the conflict is given by its place.
  unfoldable pub apply_current_value : ℕ → String → List (Row V) → List (Row V)
  apply_current_value i field [] = []
  apply_current_value zero field (row ∷ rows) = take_current field row ∷ rows
  apply_current_value (suc i) field (row ∷ rows) = row ∷ apply_current_value i field rows

module _ {V : Type 0} where
  unfoldable pub without_current : Row V → Row V
  without_current row = keep (λ e. not (ends_with "-current" e.0)) row

module _ {V : Type 0} (number : ℕ → V) where
  -- `{id, ...data}`: the key `id` comes first, with the value of `data` if that has one.
  abbrev pub with_id : ℕ → Row V → Row V
  with_id id row = ("id", elim (get "id" row) [ some v ↦ v | none ↦ number id ]) ∷ delete "id" row

  -- The record that is sent for a conflict.
  unfoldable pub resolved_row : Conflict V → Row V → Row V
  resolved_row conflict row =
      set "version" (number conflict.version) (with_id conflict.id (without_current row))

  -- The effect: the resolved data, or none where it throws since a row has no conflict.
  unfoldable pub resolved_rows : List (Row V) → List (Conflict V) → Option (List (Row V))
  resolved_rows [] conflicts = some []
  resolved_rows (row ∷ rows) [] = none
  resolved_rows (row ∷ rows) (c ∷ conflicts) = elim (resolved_rows rows conflicts) [
    | some more ↦ some (resolved_row c row ∷ more)
    | none ↦ none
  ]
