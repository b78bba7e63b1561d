-- ===== src/Tables/NewRows.antt =====
-- The rows that were created in a table, and what saving and deleting them calls.
use boar_pack.Base.{
  ℕ, zero, suc, ◌+◌, ◌<◌, String, ◌<>◌, ◌≡◌, ◌≢◌, ◌⊎◌, refl, sym, ap, ◌∙◌, Bool, true, false, ◌&&◌,
  none, some, List, [], ◌∷◌, map, text_eq, number_eq, ◌==◌, member, Distinct, All, arith,
  Bool-cases, inl, inr, behind, is_some, all, Option-cases, ◌++◌, behind-append,
}
use text.Mathlib.TextEquality.{eq_iff}
use boar_pack.Tables.Editing.{
  Cells, Row, Call, creates, Handlers, Popup, Created, created, new_record, is_record_new,
  get_new_id, add_edit_record, added_rows, row_key, perform, on_delete, on_create_submit,
  starts_new, str, submitted, refused, failed, spread,
}

-- A row that was created is new, and deleting it calls nothing.
abbrev pub IsUnsaved : Cells → Row → Type 0
IsUnsaved path_params r = (is_record_new r ≡ true) × (on_delete path_params r ≡ [])

module _ (text : ℕ → String) (text_injective : (m n : ℕ) → text m ≡ text n → m ≡ n) where
  key_injective : (m n : ℕ) → new_record <> text m ≡ new_record <> text n → m ≡ n
  key_injective m n e =
      let rest : some (text m) ≡ some (text n) =
        sym (behind-append new_record (text m))
        ∙ ap (behind new_record) e
        ∙ behind-append new_record (text n) in
      text_injective m n (cc rest)

  earlier_key :
      (ids : List String) (n : ℕ) (defaults : Cells) (m count : ℕ)
      → m < count
      → member (new_record <> text m) (map (row_key text ids) (added_rows text n defaults count))
        ≡ false
  unfolding row_key add_edit_record get_new_id
  earlier_key ids zero defaults m count h = refl
  earlier_key ids (suc n) defaults m count h =
      elim (Bool-cases ((new_record <> text count) == (new_record <> text m))) [
        | inl same ↦ absurd (omega (arith, h, key_injective count m ((eq_iff _ _).0 same)))
        | inr other ↦ rw other (earlier_key ids n defaults m (count + 1) (omega (arith, h)))
      ]

  keys-Distinct :
      (ids : List String) (n : ℕ) (defaults : Cells) (count : ℕ)
      → Distinct (map (row_key text ids) (added_rows text n defaults count))
  unfolding row_key add_edit_record get_new_id
  keys-Distinct ids zero defaults count = tt
  keys-Distinct ids (suc n) defaults count = (
    earlier_key ids n defaults count (count + 1) (omega arith),
    keys-Distinct ids n defaults (count + 1),
  )

  added_rows-IsUnsaved :
      (path_params : Cells) (n : ℕ) (defaults : Cells) (count : ℕ)
      → All (IsUnsaved path_params) (added_rows text n defaults count)
  unfolding add_edit_record get_new_id is_record_new on_delete
  added_rows-IsUnsaved path_params zero defaults count = tt
  added_rows-IsUnsaved path_params (suc n) defaults count =
      let new : starts_new (some (str (new_record <> text count))) ≡ true =
        ap is_some (behind-append new_record (text count)) in
      (
        (rw new refl, rw (new, is_record_new) refl),
        added_rows-IsUnsaved path_params n defaults (count + 1),
      )

  -- Rows that were created one after another, whatever they begin with and whatever the columns of the
  -- ids are, have distinct keys in the table; each is new, and deleting it calls nothing.
  pub added_rows-Distinct :
      (ids : List String) (path_params : Cells) (n : ℕ) (defaults : Cells) (count : ℕ)
      → Distinct (map (row_key text ids) (added_rows text n defaults count))
        × All (IsUnsaved path_params) (added_rows text n defaults count)
  added_rows-Distinct ids path_params n defaults count =
      (keys-Distinct ids n defaults count, added_rows-IsUnsaved path_params n defaults count)

both_true : (a b : Bool) → (a && b) ≡ true → (a ≡ true) × (b ≡ true)
both_true true b h = (refl, h)
both_true false b h = ground (arith, h)

-- The call of a handler that fails is its last.
pub perform-failing :
    (succeeds : Call → Bool) (before after : List Call) (c : Call)
    → all succeeds before ≡ true
    → succeeds c ≡ false
    → perform succeeds (before ++ c ∷ after) ≡ (before ++ c ∷ [], false)
perform-failing succeeds [] after c good bad = rw bad refl
perform-failing succeeds (b ∷ before) after c good bad =
    let (first, others) = both_true (succeeds b) (all succeeds before) good in
    rw first
      (ap (λ made. (b ∷ made.0, made.1)) (perform-failing succeeds before after c others bad))

submitted_cases :
    (a : Created) (p : Popup)
    → ((a ≡ created)
        × ((submitted a p).create_popup_data ≡ none)
        × ((submitted a p).reloads ≡ p.reloads + 1))
      ⊎ ((a ≢ created)
          × ((submitted a p).create_popup_data ≡ p.create_popup_data)
          × ((submitted a p).reloads ≡ p.reloads))
submitted_cases created p = inl (refl, refl, refl)
submitted_cases failed p = inr (λ e. cc e, refl, refl)
submitted_cases (refused e) p = elim (Bool-cases (e.status_code == 400)) [
  | inl bad ↦ inr (λ q. cc q, rw bad refl, rw bad refl)
  | inr other ↦ inr (λ q. cc q, rw other refl, rw other refl)
]

-- The popup closes, and the table is reloaded, exactly if its row was sent and the API took it; what
-- was typed stays in it otherwise.
pub on_create_submit-closes :
    (h : Handlers) (path_params row : Cells) (answer : Call → Created) (typed : Cells) (p : Popup)
    → p.create_popup_data ≡ some typed
    → let (calls, after) = on_create_submit h path_params row answer p in
      ((after.create_popup_data ≡ none)
        × (after.reloads ≡ p.reloads + 1)
        × ((c : Call) × (calls ≡ c ∷ []) × (answer c ≡ created)))
      ⊎ ((after.create_popup_data ≡ some typed)
          × (after.reloads ≡ p.reloads)
          × ((calls ≡ []) ⊎ ((c : Call) × (calls ≡ c ∷ []) × (answer c ≢ created))))
unfolding on_create_submit
on_create_submit-closes h path_params row answer typed p open_with =
    elim (Option-cases h.entity_to_create_dto) [
      | inl none_given ↦ rw (none_given, on_create_submit) (inr (open_with, refl, inl refl))
      | inr (dto, given) ↦
          rw (given, on_create_submit)
            (elim (Bool-cases h.on_create) [
              | inr missing ↦ rw missing (inr (open_with, refl, inl refl))
              | inl there ↦ rw there (
                  let call = creates path_params (dto (spread row path_params)) in
                  elim (submitted_cases (answer call) p) [
                    | inl (done, shut, again) ↦ inl (shut, again, (call, refl, done))
                    | inr (bad, kept, same) ↦ inr (kept ∙ open_with, same, inr (call, refl, bad))
                  ])
            ])
    ]
