-- ===== src/Imports/Modal.antt =====
-- The state of packages/common-frontend/src/components/ChangesModal/ChangesModal.tsx and its
-- handlers. `V` are the values of records.
use boar_pack.Base.{
  ℕ, String, Bool, true, false, not, ◌&&◌, ◌||◌, Option, none, some, List, [], ◌∷◌, ◌==◌, number_eq,
  if◌then◌else◌, is_some,
}

pub data Tab : Type 0 where
  changes_tab new_records_tab errors_tab results_tab conflicts_tab : Tab

pub record ServerError : Type 0 where
  pub field : String
  pub text : String

abbrev pub is_empty {ℓ} : {A : Type ℓ} → List A → Bool
is_empty [] = true
is_empty (x ∷ xs) = false

abbrev pub is_400 : Option ℕ → Bool
is_400 none = false
is_400 (some status) = status == 400

module _ (V : Type 0) where
  abbrev pub Row : Type 0
  Row = List (String × V)

  -- `TDiffResult`.
  pub record Changes : Type 0 where
    pub created : List Row
    pub updated : List Row
    pub table_data : List Row

  pub record ConflictField : Type 0 where
    pub field : String
    pub current_value : V
    pub imported_value : V

  -- `TImportConflict` and `TImportResponse`.
  pub record Conflict : Type 0 where
    pub id : ℕ
    pub version : ℕ
    pub fields : List ConflictField

  pub record Response : Type 0 where
    pub conflicts : Option (List Conflict)
    pub created_count : ℕ
    pub updated_count : ℕ

  -- What the handler reads of an error: the status, that of the body, and the errors of the body if
  -- they are an array.
  pub record Failure : Type 0 where
    pub status : Option ℕ
    pub body_status : Option ℕ
    pub errors : Option (List ServerError)

  pub record Modal : Type 0 where
    pub active_tab : Tab
    pub is_loading : Bool
    pub import_response : Option Response
    pub server_errors : List ServerError
    pub resolved_data : List Row

  pub record Payload : Type 0 where
    pub new : List Row
    pub modified : List Row

module _ {V : Type 0} where
  abbrev pub initial : Modal V
  initial = record {
    active_tab = changes_tab;
    is_loading = false;
    import_response = none;
    server_errors = [];
    resolved_data = [];
  }

  -- `res.conflicts?.length` as a condition.
  abbrev pub has_conflicts : Option (List (Conflict V)) → Bool
  has_conflicts none = false
  has_conflicts (some cs) = not (is_empty cs)

  -- `importResponse?.conflicts?.length === 0`.
  abbrev pub has_none : Option (List (Conflict V)) → Bool
  has_none none = false
  has_none (some cs) = is_empty cs

  abbrev pub responded : (Option (List (Conflict V)) → Bool) → Option (Response V) → Bool
  responded test none = false
  responded test (some res) = test res.conflicts

  unfoldable pub on_cancel : Modal V → Modal V
  on_cancel m = record m {
    active_tab = changes_tab;
    import_response = none;
    server_errors = [];
    resolved_data = [];
  }

  -- `handleCommitClick` up to the request, and what it sends.
  unfoldable pub handle_commit_click : Changes V → Modal V → Modal V × Payload V
  handle_commit_click changes m = (
    record m { server_errors = []; is_loading = true },
    record {
      new = changes.created;
      modified = if is_empty m.resolved_data then changes.updated else m.resolved_data;
    },
  )

  -- The response to the request, with the `finally`.
  unfoldable pub on_response : Response V → Modal V → Modal V
  on_response res m = record m {
    import_response = some res;
    active_tab = if has_conflicts res.conflicts then conflicts_tab else results_tab;
    is_loading = false;
  }

  abbrev pub errors_shown : List ServerError → Modal V → Modal V
  errors_shown errors m = record m {
    server_errors = errors;
    active_tab = if is_empty errors then m.active_tab else errors_tab;
    is_loading = false;
  }

  abbrev pub failed : Bool → Option (List ServerError) → Modal V → Modal V
  failed true (some errors) m = errors_shown errors m
  failed _ _ m = record m { is_loading = false }

  -- The error of the request, with the `finally`.
  unfoldable pub on_failure : Failure V → Modal V → Modal V
  on_failure f m = failed (is_400 f.status || is_400 f.body_status) f.errors m

  -- The tabs that cannot be chosen.
  unfoldable pub is_disabled : Changes V → Modal V → Tab → Bool
  is_disabled changes m changes_tab = is_empty changes.table_data
  is_disabled changes m new_records_tab = is_empty changes.created
  is_disabled changes m errors_tab = is_empty m.server_errors
  is_disabled changes m conflicts_tab =
      not (is_some m.import_response) || responded has_none m.import_response
  is_disabled changes m results_tab =
      not (is_some m.import_response) || responded has_conflicts m.import_response

  unfoldable pub is_commit_disabled : Changes V → Modal V → Bool
  is_commit_disabled changes m =
      responded has_none m.import_response
      || not (is_empty m.server_errors)
      || (is_empty changes.updated && is_empty changes.created)
