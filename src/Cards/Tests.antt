-- ===== src/Cards/Tests.antt =====
-- A card that was changed, cancelled beside another and saved, and a request.
use boar_pack.Base.{
  if◌then◌else◌, number_eq, ℕ, String, ◌≡◌, refl, true, false, some, List, [], ◌∷◌, text_eq, ◌==◌,
}
use boar_pack.Dict.{get, set, has}
use boar_pack.Tables.Editing.{num, str, Cells, updates, deletes, reloads, get_new_id}
use boar_pack.Cards.Editing.{
  Props, Event, changed, saved, cancelled, reloaded, save, delete_card, create_card, run,
}
use boar_pack.Cards.Remembered.{save-run}

abbrev digits : ℕ → String
digits n = if n == 1 then "1" else "2"

abbrev props : Props
props = record {
  on_create = true;
  entity_to_create_dto = λ e. e;
  entity_to_update_dto = λ e. e;
  after_save = false;
  path_params = [];
  id_column_name = "id";
  create_new_default_params = [];
}

abbrev named : ℕ → String → Cells
named n name = ("id", num n) ∷ ("name", str name) ∷ []

abbrev between : List Event
between = saved (num 1) (named 1 "old") false ∷ reloaded ∷ cancelled (num 2) (named 2 "old") ∷ []

-- The list was reloaded with another name, and the save sends the one of before.
save-run_example :
    save digits props
      (num 1)
      (named 1 "of the server")
      false
      (run "id" (changed (named 2 "new" ∷ named 1 "new" ∷ []) ∷ between) [])
    ≡ updates (("id", str "1") ∷ []) (named 1 "new") ∷ reloads ∷ []
unfolding get set has
save-run_example =
    save-run digits props (num 1) (named 1 "of the server") false (named 2 "new" ∷ []) []
      (named 1 "new") between [] refl refl refl

what_is_sent :
    save digits props (num 1) (named 1 "new") false []
    ≡ updates (("id", str "1") ∷ []) (named 1 "new") ∷ reloads ∷ []
unfolding save set get
what_is_sent = refl

created_card :
    create_card digits props 1
    ≡ (record { key_symbol = some "NEW_RECORD1"; cells = ("id", str "NEW_RECORD1") ∷ [] }, 2)
unfolding create_card get_new_id set
created_card = refl

deleted_card : delete_card digits props (num 2) ≡ deletes (("id", str "2") ∷ []) [] ∷ []
unfolding delete_card
deleted_card = refl
