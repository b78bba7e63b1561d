-- ===== src/Tables/Editing.antt =====
-- The rows of a table that are new, saved and deleted: useCreation.tsx, useEditableTable.tsx and
-- `rowKey` of Table.tsx in packages/common-frontend/src/components/Table. `String` on numbers is a
-- parameter, and so are the conversions to a DTO. A call that fails ends the handler.
use boar_pack.Base.{
  ℕ, zero, suc, String, ◌<>◌, ◌+◌, Bool, true, false, ◌||◌, Option, none, some, List, [], ◌∷◌, map,
  text_eq, number_eq, ◌==◌, if◌then◌else◌, Result, ok, err, is_some, behind, join,
}
use boar_pack.Dict.{get, set}

-- A value of a row: a number or a text.
pub data Cell : Type 0 where
  num : ℕ → Cell
  str : String → Cell

abbrev pub Cells : Type 0
Cells = List (String × Cell)

-- A row, and what it has under `KEY_SYMBOL`.
pub record Row : Type 0 where
  pub key_symbol : Option String
  pub cells : Cells

abbrev pub new_record : String
new_record = "NEW_RECORD"

-- `x?.startsWith?.(NEW_RECORD)`.
abbrev pub starts_new : Option Cell → Bool
starts_new (some (str s)) = is_some (behind new_record s)
starts_new _ = false

unfoldable pub is_record_new : Row → Bool
is_record_new r =
    starts_new (elim r.key_symbol [ some s ↦ some (str s) | none ↦ none ])
    || starts_new (get "id" r.cells)

-- `{...base, ...more}`.
abbrev pub spread : Cells → Cells → Cells
spread [] base = base
spread ((k, v) ∷ more) base = spread more (set k v base)

module _ (text : ℕ → String) where
  -- `getNewId`, with `creatingRecordsCount`.
  unfoldable pub get_new_id : ℕ → String × ℕ
  get_new_id count = (new_record <> text count, count + 1)

  -- The click on the button that creates a row in the table.
  unfoldable pub add_edit_record : Cells → ℕ → Row × ℕ
  add_edit_record default_params count =
      let (id, later) = get_new_id count in
      (record { key_symbol = some id; cells = default_params }, later)

  -- Several clicks.
  abbrev pub added_rows : ℕ → Cells → ℕ → List Row
  added_rows zero default_params count = []
  added_rows (suc n) default_params count =
      let (r, later) = add_edit_record default_params count in r ∷ added_rows n default_params later

  abbrev pub cell_text : Option Cell → String
  cell_text (some (str s)) = s
  cell_text (some (num n)) = text n
  cell_text none = ""

  -- `rowKey`, for one column of ids or several, as a text. What stands in no column of a row is
  -- written as the empty text, as `join` does.
  unfoldable pub row_key : List String → Row → String
  row_key id_column_names r = elim r.key_symbol [
    | some s ↦ s
    | none ↦ join "-" (map (λ name. cell_text (get name r.cells)) id_column_names)
  ]

-- What the handlers call.
pub data Call : Type 0 where
  creates updates deletes : (params : Cells) → (body : Cells) → Call
  calls_after_save : (row : Cells) → Call
  reloads : Call

pub data SaveError : Type 0 where
  no_handlers : SaveError

-- The handlers that a table may be given.
pub record Handlers : Type 0 where
  pub on_create : Bool
  pub entity_to_create_dto : Option (Cells → Cells)
  pub entity_to_update_dto : Cells → Cells
  pub after_save : Bool

-- The calls of a handler, in their order, up to the first that fails, and whether one fails.
abbrev pub perform : (Call → Bool) → List Call → List Call × Bool
perform succeeds [] = ([], true)
perform succeeds (c ∷ cs) =
    let (made, all) = perform succeeds cs in if succeeds c then (c ∷ made, all) else (c ∷ [], false)

abbrev pub finishing : Handlers → Cells → List Call
finishing h cells = if h.after_save then calls_after_save cells ∷ reloads ∷ [] else reloads ∷ []

-- The calls that `onSave` is to make.
unfoldable pub on_save : Handlers → Cells → Bool → Row → Result SaveError (List Call)
on_save h path_params new_line r =
    if new_line
    then elim h.entity_to_create_dto [
      | some dto ↦
          if h.on_create
          then ok (creates path_params (dto r.cells) ∷ finishing h r.cells)
          else err no_handlers
      | none ↦ err no_handlers
    ]
    else ok (
        updates (spread r.cells path_params) (h.entity_to_update_dto (spread r.cells path_params))
        ∷ finishing h r.cells)

unfoldable pub on_delete : Cells → Row → List Call
on_delete path_params r =
    if is_record_new r then [] else deletes (spread path_params r.cells) [] ∷ []

-- An error of a creation: what its body says, if it is one of the API.
pub record ApiError : Type 0 where
  pub status_code : ℕ
  pub errors : List (String × String)

-- The popup's data, the errors at its fields, and how often the table was reloaded.
pub record Popup : Type 0 where
  pub create_popup_data : Option Cells
  pub field_errors : List (String × String)
  pub reloads : ℕ

pub data Created : Type 0 where
  created : Created
  refused : (e : ApiError) → Created
  failed : Created

-- `setFieldErrors`: an error at a field takes the place of the one before.
abbrev pub set_field_errors :
    List (String × String) → List (String × String) → List (String × String)
set_field_errors [] shown = shown
set_field_errors ((field, message) ∷ errors) shown =
    set_field_errors errors (set field message shown)

abbrev pub submitted : Created → Popup → Popup
submitted created p = record p { create_popup_data = none; reloads = p.reloads + 1 }
submitted (refused e) p =
    if e.status_code == 400
    then record p { field_errors = set_field_errors e.errors p.field_errors }
    else p
submitted failed p = p

-- `onCreateSubmit`, with the call of `onCreate` that it makes; `answer` is how that ends.
unfoldable pub on_create_submit :
    Handlers → Cells → Cells → (Call → Created) → Popup → List Call × Popup
on_create_submit h path_params row answer p = elim h.entity_to_create_dto [
  | some dto ↦
      let call = creates path_params (dto (spread row path_params)) in
      if h.on_create then (call ∷ [], submitted (answer call) p) else ([], p)
  | none ↦ ([], p)
]
