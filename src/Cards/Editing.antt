-- ===== src/Cards/Editing.antt =====
-- The creation, editing and deletion of cards in
-- packages/common-frontend/src/components/List/List.tsx, with the data that the component keeps from
-- the last change of a value. The conversions to a DTO are parameters.
use boar_pack.Base.{
  ℕ, String, ◌≡◌, ap, ◌↔◌, Bool, true, false, none, some, List, [], ◌∷◌, ◌++◌, map, find, text_eq,
  number_eq, Eq, ◌==◌, if◌then◌else◌, arith,
}
use boar_pack.Dict.{get, set}
use boar_pack.Tables.Editing.{
  Cell, num, str, Cells, Call, creates, updates, deletes, calls_after_save, reloads, spread,
  get_new_id, cell_text, Row,
}

abbrev cell_test : Cell → Cell → Bool
cell_test (num a) (num b) = a == b
cell_test (str a) (str b) = a == b
cell_test _ _ = false

pub cell_test_iff : (c d : Cell) → (cell_test c d ≡ true) ↔ (c ≡ d)
cell_test_iff (num a) (num b) = (
  λ h. ap num ((number_eq.decides a b).0 h),
  λ e. (number_eq.decides a b).1 (ap (λ c. elim c [ num n ↦ n | str t ↦ a ]) e),
)
cell_test_iff (str a) (str b) = (
  λ h. ap str ((text_eq.decides a b).0 h),
  λ e. (text_eq.decides a b).1 (ap (λ c. elim c [ num n ↦ a | str t ↦ t ]) e),
)
cell_test_iff (num a) (str b) = ground arith
cell_test_iff (str a) (num b) = ground arith

instance abbrev pub cell_eq : Eq Cell
cell_eq = record { test = cell_test; decides = cell_test_iff }

-- What the component is given.
pub record Props : Type 0 where
  pub on_create : Bool
  pub entity_to_create_dto : Cells → Cells
  pub entity_to_update_dto : Cells → Cells
  pub after_save : Bool
  pub path_params : Cells
  pub id_column_name : String
  pub create_new_default_params : Cells

-- `entity[idColumnName] === id`.
abbrev pub has_id : String → Cell → Cells → Bool
has_id id_column_name id entity = elim (get id_column_name entity) [
  | some c ↦ c == id
  | none ↦ false
]

-- `editableData`, of which `onValuesChange` keeps the last.
unfoldable pub on_values_change : List Cells → List Cells → List Cells
on_values_change rows editable_data = rows

-- What `onSave` takes for the entity.
abbrev pub edited : String → Cell → Cells → List Cells → Cells
edited id_column_name id r editable_data = elim (find (has_id id_column_name id) editable_data) [
  | some entity ↦ entity
  | none ↦ r
]

-- `Object.assign` to each entity with the id.
unfoldable pub on_cancel : String → Cell → Cells → List Cells → List Cells
on_cancel id_column_name id origin editable_data =
    map (λ entity. if has_id id_column_name id entity then spread origin entity else entity)
      editable_data

module _ (text : ℕ → String) where
  -- The calls of `onSave`, where none of them fails.
  unfoldable pub save : Props → Cell → Cells → Bool → List Cells → List Call
  save p id r new_line editable_data =
      let entity = edited p.id_column_name id r editable_data in
      let saved =
        if new_line
        then if p.on_create then creates p.path_params (p.entity_to_create_dto entity) ∷ [] else []
        else updates (set p.id_column_name (str (cell_text text (some id))) p.path_params)
            (p.entity_to_update_dto (spread entity p.path_params))
          ∷ [] in
      saved ++ (if p.after_save then calls_after_save entity ∷ reloads ∷ [] else reloads ∷ [])

  unfoldable pub delete_card : Props → Cell → List Call
  delete_card p id =
      deletes (spread p.path_params ((p.id_column_name, str (cell_text text (some id))) ∷ [])) []
      ∷ []

  -- The click on the button that creates a card; the parameters may take the id's place.
  unfoldable pub create_card : Props → ℕ → Row × ℕ
  create_card p count =
      let (id, later) = get_new_id text count in
      (
        record {
          key_symbol = some id;
          cells = spread p.create_new_default_params ((p.id_column_name, str id) ∷ []);
        },
        later,
      )

-- What happens to the component; the save of a card and the reload of the list change nothing that it
-- keeps.
pub data Event : Type 0 where
  changed : (rows : List Cells) → Event
  saved : (id : Cell) (r : Cells) (new_line : Bool) → Event
  cancelled : (id : Cell) (origin : Cells) → Event
  reloaded : Event

unfoldable pub step : String → Event → List Cells → List Cells
step id_column_name (changed rows) editable_data = on_values_change rows editable_data
step id_column_name (cancelled id origin) editable_data =
    on_cancel id_column_name id origin editable_data
step id_column_name _ editable_data = editable_data

unfoldable pub run : String → List Event → List Cells → List Cells
run id_column_name [] editable_data = editable_data
run id_column_name (e ∷ es) editable_data =
    run id_column_name es (step id_column_name e editable_data)
