-- ===== src/Tables/BulkTests.antt =====
-- The bulk operations on a table, its new rows and its popup at concrete inputs.
use boar_pack.Base.{
  ℕ, zero, suc, String, ◌≡◌, ◌⊎◌, refl, ap, true, false, ◌&&◌, none, some, List, [], ◌∷◌, map,
  text_eq, number_eq, member, if◌then◌else◌, ◌<>◌, Distinct, All, ◌+◌, ◌≢◌, behind, behind-append,
  sym, ◌∙◌,
}
use boar_pack.Dict.{get, has}
use boar_pack.Tables.Bulk.{
  Answer, Selection, Values, Event, selects_all, arrives, run, step, request_done, on_select,
  is_enabled, on_delete, no_selection, handle_update, fields_values, spread,
}
use boar_pack.Tables.BulkSent.{
  IsTicked, IsWhole, run-on_delete, all_outlives_request, get-handle_update,
}
use boar_pack.Tables.Editing.{
  Cells, Call, Handlers, Popup, Created, created, row_key, added_rows, on_create_submit, num,
}
use boar_pack.Tables.NewRows.{IsUnsaved, added_rows-Distinct, on_create_submit-closes}

abbrev first_rows : Answer ℕ
first_rows = record { rows = 1 ∷ 2 ∷ []; total = 5 }

abbrev other_rows : Answer ℕ
other_rows = record { rows = 3 ∷ []; total = 1 }

abbrev whole_table : List (Event ℕ String)
whole_table = arrives "all" first_rows ∷ selects_all ∷ []

run-on_delete_example :
    IsTicked (run whole_table (no_selection {E = ℕ} {Q = String}))
    ⊎ IsWhole (run whole_table (no_selection {E = ℕ} {Q = String}))
unfolding run step request_done on_select is_enabled on_delete
run-on_delete_example = run-on_delete whole_table refl

abbrev answered : Selection ℕ String
answered = record no_selection { last_request = some ("all", first_rows) }

all_stay_selected :
    ((request_done "filtered" other_rows (on_select answered)).selected_records ≡ [])
    × (is_enabled (request_done "filtered" other_rows (on_select answered)) ≡ true)
    × (on_delete (request_done "filtered" other_rows (on_select answered))
        ≡ record { query = some "filtered"; records = [] })
all_stay_selected =
    all_outlives_request answered "all" "filtered" first_rows other_rows refl (λ e. cc e)

abbrev checked_name : Selection ℕ String
checked_name = record answered { editable_keys = "name" ∷ [] }

abbrev typed_form : Values
typed_form = ("name", "x") ∷ ("note", "y") ∷ []

name_only_changed :
    (get "name" (handle_update (λ v. v) [] typed_form checked_name).update_values ≡ (
      if member "name" checked_name.editable_keys && has "name" typed_form
      then get "name" (spread (fields_values checked_name.editable_keys typed_form) [])
      else none))
    × ((handle_update (λ v. v) [] typed_form checked_name).records
        ≡ (on_delete checked_name).records)
    × ((handle_update (λ v. v) [] typed_form checked_name).query ≡ (on_delete checked_name).query)
name_only_changed = get-handle_update (λ v. v) [] typed_form "name" checked_name

-- Numbers in unary.
abbrev strokes : ℕ → String
strokes zero = ""
strokes (suc n) = "1" <> strokes n

abbrev handlers : Handlers
handlers = record {
  on_create = true;
  entity_to_create_dto = some (λ cells. cells);
  entity_to_update_dto = λ cells. cells;
  after_save = false;
}

abbrev open_popup : Popup
open_popup = record { create_popup_data = some []; field_errors = []; reloads = 2 }

abbrev taken : Call → Created
taken c = created

on_create_submit-closes_example :
    ((on_create_submit handlers [] [] taken open_popup).1.create_popup_data ≡ none)
      × ((on_create_submit handlers [] [] taken open_popup).1.reloads ≡ 2 + 1)
      × ((c : Call) × ((on_create_submit handlers [] [] taken open_popup).0 ≡ c ∷ [])
          × (taken c ≡ created))
    ⊎ ((on_create_submit handlers [] [] taken open_popup).1.create_popup_data ≡ some [])
      × ((on_create_submit handlers [] [] taken open_popup).1.reloads ≡ 2)
      × (((on_create_submit handlers [] [] taken open_popup).0 ≡ [])
          ⊎ ((c : Call) × ((on_create_submit handlers [] [] taken open_popup).0 ≡ c ∷ [])
              × (taken c ≢ created)))
on_create_submit-closes_example = on_create_submit-closes handlers [] [] taken [] open_popup refl

behind-strokes : (n : ℕ) → behind "1" (strokes (suc n)) ≡ some (strokes n)
behind-strokes n = behind-append "1" (strokes n)

strokes_injective : (m n : ℕ) → strokes m ≡ strokes n → m ≡ n
strokes_injective zero zero e = refl
strokes_injective zero (suc n) e = cc (ap (behind "1") e, behind-strokes n)
strokes_injective (suc m) zero e = cc (ap (behind "1") e, behind-strokes m)
strokes_injective (suc m) (suc n) e =
    let rest : some (strokes m) ≡ some (strokes n) =
      sym (behind-strokes m) ∙ ap (behind "1") e ∙ behind-strokes n in
    ap suc (strokes_injective m n (cc rest))

abbrev priced : Cells
priced = ("price", num 3) ∷ []

two_new_rows :
    Distinct (map (row_key strokes ("id" ∷ [])) (added_rows strokes 3 priced 7))
    × All (IsUnsaved []) (added_rows strokes 3 priced 7)
two_new_rows = added_rows-Distinct strokes strokes_injective ("id" ∷ []) [] 3 priced 7
