-- ===== src/Imports/Tests.antt =====
-- The modal and the tab of conflicts at concrete inputs.
use boar_pack.Base.{
  All, List, Option, ℕ, String, ◌≡◌, refl, true, false, none, some, [], ◌∷◌, text_eq, number_eq,
  without_first, ends_with,
}
use boar_pack.Dict.{get, set}
use boar_pack.Imports.Order.{object_entries, index_of}
use boar_pack.Workers.Config.{digits_from}
use boar_pack.Imports.Modal.{
  Row, Changes, ConflictField, Conflict, Response, initial, handle_commit_click, on_response,
  on_cancel, is_commit_disabled,
}
use boar_pack.Imports.Reachable.{
  starts, steps, commits, responds, IsConsistent, Reachable-IsConsistent,
}
use boar_pack.Imports.Conflicts.{
  initial_row, initial_rows, get_relational_data, tab_rows, take_current, resolved_row,
  resolved_rows,
}
use boar_pack.Imports.Diff
use boar_pack.Imports.Sent.{new_rows, IsUpdate, handle_file-IsUpdate}
use boar_pack.Imports.Resolved.{get-take_current}

data Cell : Type 0 where
  null undefined : Cell
  number : ℕ → Cell
  word : String → Cell

abbrev owner : ConflictField Cell
owner = record { field = "owner_id"; current_value = number 7; imported_value = number 8 }

abbrev clash : Conflict Cell
clash = record { id = 1; version = 4; fields = owner ∷ [] }

abbrev a_conflict : Response Cell
a_conflict = record { conflicts = some (clash ∷ []); created_count = 0; updated_count = 0 }

abbrev all_done : Response Cell
all_done = record { conflicts = some []; created_count = 1; updated_count = 0 }

abbrev old_server : Response Cell
old_server = record { conflicts = none; created_count = 1; updated_count = 0 }

abbrev one_new : Changes Cell
one_new = record { created = (("name", word "a") ∷ []) ∷ []; updated = []; table_data = [] }

Reachable-IsConsistent_example :
    IsConsistent (on_response a_conflict (handle_commit_click one_new initial).0)
unfolding on_response handle_commit_click is_commit_disabled
Reachable-IsConsistent_example =
    Reachable-IsConsistent (on_response a_conflict (handle_commit_click one_new initial).0)
      (steps (steps starts (commits initial one_new refl refl)) (responds _ a_conflict refl))

-- The answer to a request that was under way when the modal was closed disables the next import.
late_answer :
    is_commit_disabled one_new
      (on_response all_done (on_cancel (handle_commit_click one_new initial).0))
    ≡ true
unfolding is_commit_disabled on_response on_cancel handle_commit_click
late_answer = refl

-- After an answer without the list of conflicts the same rows can be committed again.
commits_again :
    is_commit_disabled one_new (on_response old_server (handle_commit_click one_new initial).0)
    ≡ false
unfolding is_commit_disabled on_response handle_commit_click
commits_again = refl

abbrev row : Row Cell
row = ("owner", number 8) ∷ ("owner-current", number 7) ∷ []

initial_owner : initial_rows {V = Cell} null [] (clash ∷ []) ≡ row ∷ []
unfolding initial_rows initial_row get_relational_data set get without_first
initial_owner = refl

taken_name :
    (get "owner" (resolved_row number clash (take_current undefined "owner_id" row))
      ≡ some (number 7))
    × (get "version" (resolved_row number clash (take_current undefined "owner_id" row))
        ≡ some (number 4))
    × (get "owner-current" (resolved_row number clash (take_current undefined "owner_id" row))
        ≡ none)
unfolding get without_first
taken_name =
    get-take_current undefined number clash row "owner_id" "owner" (unfold ends_with in refl) refl

-- The rows of the tab outlive the conflicts that they were made for: with fewer conflicts the
-- effect throws.
stale_rows :
    resolved_rows {V = Cell} number
      (tab_rows null [] (some (row ∷ row ∷ [])) (clash ∷ []))
      (clash ∷ [])
    ≡ none
unfolding resolved_rows tab_rows
stale_rows = refl

-- A file with a new row and a changed one; numbers stay as they are read.
abbrev same_number : Diff.Cell → Diff.Cell
same_number c = c

abbrev shown : Diff.Cell → String
shown (Diff.words s) = s
shown c = "1"

abbrev prices : List Diff.TypedColumn
prices = record { data_index = "price"; value_type = Diff.as_digit } ∷ []

abbrev no_relations : List (String × (Diff.Cell → Option Diff.Cell))
no_relations = []

abbrev by_price :
    (String → Diff.Cell → Diff.Cell → Diff.Cell × Diff.Cell)
    → Row Diff.Cell
    → Row Diff.Cell
    → Option Diff.Differences
by_price compare before after = some (some "price" ∷ [])

abbrev exported : List (Row Diff.Cell)
exported = (("id", Diff.number 1) ∷ ("price", Diff.number 5) ∷ []) ∷ []

abbrev imported : List (Row Diff.Cell)
imported =
    (("id", Diff.words "1") ∷ ("price", Diff.number 6) ∷ []) ∷ (("price", Diff.number 7) ∷ []) ∷ []

imports :
    (Diff.handle_file same_number shown no_relations prices by_price [] exported imported).updated
    ≡ (("id", Diff.words "1") ∷ ("price", Diff.number 6) ∷ []) ∷ []
unfolding object_entries index_of digits_from Diff.handle_file Diff.compare_rows Diff.read_rows
    Diff.normalize_row Diff.payload_of get set without_first
imports = refl

handle_file-IsUpdate_example :
    ((Diff.handle_file same_number shown no_relations prices by_price [] exported imported).created
      ≡ new_rows same_number shown no_relations prices by_price [] imported)
    × All
        (IsUpdate same_number shown no_relations prices by_price [] exported imported)
        (Diff.handle_file same_number shown no_relations prices by_price [] exported
          imported).updated
handle_file-IsUpdate_example =
    handle_file-IsUpdate same_number shown no_relations prices by_price [] exported imported
