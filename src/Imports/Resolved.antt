-- ===== src/Imports/Resolved.antt =====
-- What a record that was resolved holds.
use text.Mathlib.TextEquality.{eq_iff}
use boar_pack.Base.{
  ℕ, String, ◌≡◌, refl, ap, ◌∙◌, true, false, Option, none, some, [], ◌∷◌, ◌==◌, if◌then◌else◌,
  text_eq, ends_with, ends_with-append, arith, Bool-cases, inl, inr,
}
use boar_pack.Dict.{get, get-set, get-delete}
use boar_pack.Imports.Modal.{Row, Conflict}
use boar_pack.Imports.Conflicts.{
  get_current_key, get_normalized_key, value_at, take_current, without_current, with_id,
  resolved_row,
}

ends_apart :
    (j k : String)
    → ends_with "-current" j ≡ false
    → ends_with "-current" k ≡ true
    → (j == k) ≡ false
ends_apart j k h e = elim (Bool-cases (j == k)) [
  | inl same ↦ ground (arith, h, e, ap (ends_with "-current") ((eq_iff j k).0 same))
  | inr other ↦ other
]

module _ {V : Type 0} where
  get-without_current :
      (k : String) (row : Row V)
      → ends_with "-current" k ≡ false
      → get k (without_current row) ≡ get k row
  unfolding get without_current
  get-without_current k [] h = refl
  get-without_current k ((j, v) ∷ row) h = elim (Bool-cases (j == k)) [
    | inl here ↦ ground (arith, here, h, ap (ends_with "-current") ((eq_iff j k).0 here))
    | inr other ↦ ground (arith, other, get-without_current k row h)
  ]

  get-without_current-none :
      (k : String) (row : Row V)
      → ends_with "-current" k ≡ true
      → get k (without_current row) ≡ none
  unfolding get without_current
  get-without_current-none k [] h = refl
  get-without_current-none k ((j, v) ∷ row) h = elim (Bool-cases (j == k)) [
    | inl here ↦ ground (
      arith,
      h,
      get-without_current-none k row h,
      ap (ends_with "-current") ((eq_iff j k).0 here),
    )
    | inr other ↦ ground (arith, other, get-without_current-none k row h)
  ]

module _ {V : Type 0} (undefined : V) (number : ℕ → V) where
  -- The value under a key that is sent, from the object of the conflict.
  abbrev pub sent : Conflict V → Row V → String → Option V
  sent c row k = if "version" == k then some (number c.version) else elim (get k row) [
    | some v ↦ some v
    | none ↦ if "id" == k then some (number c.id) else none
  ]

  get-with_id :
      (k : String) (id : ℕ) (row : Row V)
      → get k (with_id number id row) ≡ elim (get k row) as (λ x. Option V) [
        | some v ↦ some v
        | none ↦ if "id" == k then some (number id) else none
      ]
  unfolding get
  get-with_id k id row = elim (Bool-cases ("id" == k)) [
    | inl here ↦ ground (arith, here, ap (λ x. get x row) ((eq_iff "id" k).0 here))
    | inr other ↦ ground (arith, other, get-delete "id" k row)
  ]

  get-resolved_row :
      (c : Conflict V) (row : Row V) (k : String)
      → ends_with "-current" k ≡ false
      → get k (resolved_row number c row) ≡ sent c row k
  unfolding resolved_row
  get-resolved_row c row k h =
      get-set "version" k (number c.version) (with_id number c.id (without_current row))
      ∙ ground (arith, get-with_id k c.id (without_current row), get-without_current k row h)

  get_current-none :
      (c : Conflict V) (row : Row V) (k : String)
      → ends_with "-current" k ≡ true
      → get k (resolved_row number c row) ≡ none
  unfolding resolved_row
  get_current-none c row k h =
      get-set "version" k (number c.version) (with_id number c.id (without_current row))
      ∙ ground (
        arith,
        ends_apart "version" k (unfold ends_with in refl) h,
        ends_apart "id" k (unfold ends_with in refl) h,
        get-with_id k c.id (without_current row),
        get-without_current-none k row h,
      )

  -- Choosing the value of the server for a field: the record that is sent has under the field's
  -- name the value that the server gave, under `version` that of the server, and else what it had.
  -- No value is sent under a key that ends in `-current`.
  pub get-take_current :
      (c : Conflict V) (row : Row V) (field k : String)
      → ends_with "-current" k ≡ false
      → ("version" == k) ≡ false
      → let chosen = take_current undefined field row in
        (get k (resolved_row number c chosen) ≡ (
          if get_normalized_key field == k
          then some (value_at undefined (get_current_key (get_normalized_key field)) row)
          else get k (resolved_row number c row)))
        × (get "version" (resolved_row number c chosen) ≡ some (number c.version))
        × (get (get_current_key k) (resolved_row number c chosen) ≡ none)
  unfolding take_current
  get-take_current c row field k h v =
      let key = get_normalized_key field in
      let chosen = take_current undefined field row in
      (
        get-resolved_row c chosen k h
            ∙ ground (
              arith,
              v,
              get-resolved_row c row k h,
              get-set key k (value_at undefined (get_current_key key) row) row,
            ),
        get-resolved_row c chosen "version" (unfold ends_with in refl),
        get_current-none c chosen (get_current_key k) (ends_with-append k "-current"),
      )
