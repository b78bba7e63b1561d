-- ===== src/Descriptions/Entity.antt =====
-- The entity of packages/common-frontend/src/components/Descriptions/Descriptions.tsx: the parameters
-- of its request, its loading, and the save of a field, beside the entity that the server holds.
-- `pick` of lodash and the conversion to a DTO are parameters.
use boar_pack.Base.{
  String, Bool, true, false, Option, none, some, List, [], ◌∷◌, text_eq, if◌then◌else◌,
}
use boar_pack.Dict.{set}
use boar_pack.Tables.Columns.{IndexableRecords, collect_fields_from_columns}
use boar_pack.Tables.Editing.{Cell, Cells, spread}
use boar_pack.Tables.Query.{Relation, build_join_fields}

-- `TGetOneParams` beside the path parameters.
pub record OneParams : Type 0 where
  pub path_params : Cells
  pub relations : List String
  pub fields : List String

unfoldable pub query_params :
    Option Cells → List Relation → IndexableRecords → List String → OneParams
query_params path_params relations columns id_column_names =
    let (select, joined) = build_join_fields relations in
    record {
      path_params = elim path_params [ some params ↦ params | none ↦ [] ];
      relations = select;
      fields = collect_fields_from_columns id_column_names joined columns;
    }

pub record Shown : Type 0 where
  pub current : Option Cells
  pub loading : Bool

-- The component when it is mounted, once its two effects have run.
unfoldable pub mounted : (get_one : Bool) → Option Cells → Shown
mounted get_one entity = record { current = entity; loading = get_one }

-- The rest of `requestData`, with what `getOne` gave, or where it failed.
unfoldable pub request_done : Option Cells → Shown → Shown
request_done found s = record { current = found; loading = false }

unfoldable pub request_failed : Shown → Shown
request_failed s = record { current = none; loading = false }

-- The effect that follows the property `entity`.
unfoldable pub entity_changed : Option Cells → Shown → Shown
entity_changed entity s = record { current = entity; loading = s.loading }

-- How the calls of a save end: whether the fields of the form are valid and the update succeeds.
-- What `afterSave` does comes last and its failure changes nothing.
pub record Outcome : Type 0 where
  pub valid : Bool
  pub updated : Bool

module _ (pick : Cells → String → Cells) (entity_to_update_dto : Cells → Cells) where
  -- `onSave`, with the body of the request that it makes; it makes none without `onUpdate` or
  -- `entityToUpdateDto`.
  unfoldable pub on_save : Bool → String → Cells → Outcome → Shown → Option Cells × Shown
  on_save can_update prop r outcome s =
      if outcome.valid
      then if can_update
        then (
          some (entity_to_update_dto (pick r prop)),
          if outcome.updated then record { current = some r; loading = s.loading } else s,
        )
        else (none, record { current = some r; loading = s.loading })
      else (none, s)

-- What happens to the component: a request gives what the server holds, and an edit is of a field of
-- the entity that is shown.
pub data Event : Type 0 where
  requested request_fails : Event
  given : (entity : Option Cells) → Event
  edited : (prop : String) (value : Cell) (outcome : Outcome) → Event

-- The component, and the entity that the server holds, whose fields a successful update sets.
pub record World : Type 0 where
  pub shown : Shown
  pub server : Cells

abbrev pub received : Bool → Option Cells → Cells → Cells
received updated (some body) server = if updated then spread body server else server
received updated none server = server

module _ (pick : Cells → String → Cells) (entity_to_update_dto : Cells → Cells) where
  abbrev pub edit : String → Cell → Outcome → Option Cells → World → World
  edit prop value outcome none w = w
  edit prop value outcome (some entity) w =
      let (body, shown) =
        on_save pick entity_to_update_dto true prop (set prop value entity) outcome w.shown in
      record { shown = shown; server = received outcome.updated body w.server }

  unfoldable pub step : Event → World → World
  step requested w = record { shown = request_done (some w.server) w.shown; server = w.server }
  step request_fails w = record { shown = request_failed w.shown; server = w.server }
  step (given entity) w = record { shown = entity_changed entity w.shown; server = w.server }
  step (edited prop value outcome) w =
      if w.shown.loading then w else edit prop value outcome w.shown.current w

  unfoldable pub run : List Event → World → World
  run [] w = w
  run (e ∷ es) w = run es (step e w)
