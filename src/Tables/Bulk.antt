-- ===== src/Tables/Bulk.antt =====
-- The selection of rows and the changes of many rows at once: useBulkEditing.tsx, BulkEditButton.tsx
-- and BulkDeleteButton.tsx of packages/common-frontend/src/components/Table, with what `request` of
-- Table.tsx does to them. What renders them is left out, and so is an effect whose end is not
-- awaited: the answer of an edit or a deletion is a new request.
use boar_pack.Base.{
  ℕ, String, Bool, true, false, not, Option, none, some, List, [], ◌∷◌, text_eq, number_eq, ◌==◌,
  if◌then◌else◌, length, member, add, remove,
}
use boar_pack.Dict.{set, has, keep_keys}

-- What the server answers to a request for rows.
pub record Answer (E : Type 0) : Type 0 where
  pub rows : List E
  pub total : ℕ

-- `TBulkEditConfig`: what the dialog was opened for.
pub data Target (E Q : Type 0) : Type 0 where
  records : (value : List E) → (count : ℕ) → Target E Q
  query : (value : Q) → (count : ℕ) → Target E Q

-- The states of the hook, of the edit button, and of its dialog.
pub record Selection (E Q : Type 0) : Type 0 where
  pub all_selected : Bool
  pub selected_records : List E
  pub last_request : Option (Q × Answer E)
  pub bulk_edit_config : Option (Target E Q)
  pub editable_keys : List String

-- A form, and an update as an object.
abbrev pub Values : Type 0
Values = List (String × String)

-- The body of a request for an update or a deletion, with the query that goes with it.
pub record Update (E Q : Type 0) : Type 0 where
  pub query : Option Q
  pub update_values : Values
  pub records : List E

pub record Deletion (E Q : Type 0) : Type 0 where
  pub query : Option Q
  pub records : List E

-- `_.pickBy(dto, (value, key) => _.has(values, key))`.
abbrev pub pick_known : Values → Values → Values
pick_known values = keep_keys (λ k. has k values)

-- The fields of the form that are mounted: those of the checked columns.
abbrev pub fields_values : List String → Values → Values
fields_values keys = keep_keys (λ k. member k keys)

-- `{ ...base, ...more }`.
abbrev pub spread : Values → Values → Values
spread [] base = base
spread ((k, v) ∷ more) base = spread more (set k v base)

module _ {E Q : Type 0} where
  abbrev pub query_of : Option (Q × Answer E) → Option Q
  query_of none = none
  query_of (some (q, a)) = some q

  abbrev pub total_of : Option (Q × Answer E) → Option ℕ
  total_of none = none
  total_of (some (q, a)) = some a.total

  -- `recordsCount`, which is not computed, as an exception, where all is selected before a request.
  abbrev pub records_count : Selection E Q → Option ℕ
  records_count s =
      if s.all_selected then total_of s.last_request else some (length s.selected_records)

  -- `allSelected ? [] : selectedRecords`.
  abbrev pub sent_records : Selection E Q → List E
  sent_records s = if s.all_selected then [] else s.selected_records

  unfoldable pub is_enabled : Selection E Q → Bool
  is_enabled s = elim (records_count s) [ some n ↦ not (n == 0) | none ↦ false ]

  -- The deletion that is sent once it is confirmed.
  unfoldable pub on_delete : Selection E Q → Deletion E Q
  on_delete s = record { query = query_of s.last_request; records = sent_records s }

  -- `rowSelection.onChange`.
  unfoldable pub on_change : List E → Selection E Q → Selection E Q
  on_change rows s = record s { selected_records = rows; all_selected = false }

  -- `onSelect` of "Select ALL"; before a request it throws and changes nothing.
  abbrev pub select_answered : Option (Q × Answer E) → Selection E Q → Selection E Q
  select_answered none s = s
  select_answered (some (q, a)) s = record s { selected_records = a.rows; all_selected = true }

  unfoldable pub on_select : Selection E Q → Selection E Q
  on_select s = select_answered s.last_request s

  -- The end of `request`, if the rows were got.
  unfoldable pub request_done : Q → Answer E → Selection E Q → Selection E Q
  request_done q a s = record s { selected_records = []; last_request = some (q, a) }

  -- The click on the edit button, whose dialog then starts with no field checked.
  abbrev pub target : Selection E Q → Option (Q × Answer E) → Option (Target E Q)
  target s last =
      if s.all_selected
      then elim last [ some (q, a) ↦ some (query q a.total) | none ↦ none ]
      else some (records s.selected_records (length s.selected_records))

  unfoldable pub open_dialog : Selection E Q → Selection E Q
  open_dialog s =
      if is_enabled s
      then record s { bulk_edit_config = target s s.last_request; editable_keys = [] }
      else s

  unfoldable pub handle_checkbox_change : String → Bool → Selection E Q → Selection E Q
  handle_checkbox_change key checked s = record s {
    editable_keys = if checked then add key s.editable_keys else remove key s.editable_keys;
  }

  unfoldable pub close_dialog : Selection E Q → Selection E Q
  close_dialog s = record s { bulk_edit_config = none; editable_keys = [] }

  module _ (entity_to_update_dto : Values → Values) (path_params : Values) where
    -- What `handleUpdate` has `onSubmit` send, for the values of the form.
    unfoldable pub handle_update : Values → Selection E Q → Update E Q
    handle_update form s =
        let values = fields_values s.editable_keys form in
        record {
          query = query_of s.last_request;
          update_values = pick_known values (entity_to_update_dto (spread values path_params));
          records = sent_records s;
        }

-- What happens to the table: the user ticks rows, selects all of them, opens, fills in and closes the
-- dialog, and the rows of a request arrive.
pub data Event (E Q : Type 0) : Type 0 where
  changes : (rows : List E) → Event E Q
  selects_all opens closes : Event E Q
  checks : (key : String) → (checked : Bool) → Event E Q
  arrives : (q : Q) → (a : Answer E) → Event E Q

module _ {E Q : Type 0} where
  unfoldable pub step : Event E Q → Selection E Q → Selection E Q
  step (changes rows) s = on_change rows s
  step selects_all s = on_select s
  step opens s = open_dialog s
  step closes s = close_dialog s
  step (checks key checked) s = handle_checkbox_change key checked s
  step (arrives q a) s = request_done q a s

  unfoldable pub run : List (Event E Q) → Selection E Q → Selection E Q
  run [] s = s
  run (e ∷ es) s = run es (step e s)

  abbrev pub no_selection : Selection E Q
  no_selection = record {
    all_selected = false;
    selected_records = [];
    last_request = none;
    bulk_edit_config = none;
    editable_keys = [];
  }
