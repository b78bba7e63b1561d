-- ===== src/AuditLogs/Service.antt =====
-- packages/users-backend/src/audit-logs/audit-log-base-service.ts: a CRUD service that writes down
-- what it changes. The CRUD library and TypeORM's repository of the table are parameters.
use boar_pack.Base.{
  String, ◌≡◌, Bool, Option, none, some, List, [], ◌∷◌, ◌++◌, map, Eq, ◌==◌, text_eq, all, is_some,
  if◌then◌else◌,
}
use boar_pack.Dict.{set}

pub data AuditAction : Type 0 where
  create update delete : AuditAction

-- An entity, a change of it, and the filters of a request.
abbrev pub Fields : Type 0 → Type 0
Fields V = List (String × V)

-- `find` reads the row with a key; `key_of` is the key that a row holds.
pub record Table (V : Type 0) : Type 1 where
  pub Key : Type 0
  pub key_eq : Eq Key
  pub Store : Type 0
  pub key_of : Fields V → Key
  pub find : Key → Store → Option (Fields V)
  pub create_one : Fields V → Store → Fields V × Store
  pub save : Fields V → Store → Fields V × Store
  pub remove : Fields V → Store → Store
  pub soft_remove : Fields V → Store → Store
  pub create_law :
      (k : Key) (dto : Fields V) (s : Store)
      → let (row, s') = create_one dto s in
        find k s' ≡ (if ◌==◌ ⦃e = key_eq⦄ (key_of row) k then some row else find k s)
  pub save_law :
      (k : Key) (fields : Fields V) (s : Store)
      → let (row, s') = save fields s in
        find k s' ≡ (if ◌==◌ ⦃e = key_eq⦄ (key_of row) k then some row else find k s)
  pub remove_law :
      (k : Key) (row : Fields V) (s : Store)
      → find k (remove row s) ≡ (if ◌==◌ ⦃e = key_eq⦄ (key_of row) k then none else find k s)
  pub soft_remove_law :
      (k : Key) (row : Fields V) (s : Store)
      → find k (soft_remove row s) ≡ (if ◌==◌ ⦃e = key_eq⦄ (key_of row) k then none else find k s)

module _ {V : Type 0} (t : Table V) where
  open t use {Key, Store, key_of, find, save, remove, soft_remove}

  -- A row of the audit log; `createMany` gives no action.
  pub record AuditLog : Type 0 where
    pub action : Option AuditAction
    pub user_id : Option String
    pub old_values : Option (Fields V)
    pub new_values : Option (Fields V)

  -- The parts of a request and of the options of its route that the service reads.
  pub record Request : Type 0 where
    pub user_id : Option String
    pub key : Key
    pub params_filters : Fields V
    pub auth_persist : Fields V
    pub allow_params_override : Bool
    pub return_shallow : Bool
    pub soft_delete : Bool

  -- The table and the audit log.
  abbrev pub State : Type 0
  State = Store × List AuditLog

  -- `createAuditLog`. The column of the action takes no null, so that without one the insert of the
  -- rows throws, and nothing is written.
  abbrev pub create_audit_log : List AuditLog → State → State
  create_audit_log rows (s, logs) =
      (s, if all (λ r. is_some r.action) rows then logs ++ rows else logs)

  unfoldable pub create_one : Request → Fields V → State → State
  create_one req dto (s, logs) =
      let (result, s') = t.create_one dto s in
      create_audit_log
        (record {
          action = some create;
          user_id = req.user_id;
          old_values = none;
          new_values = some result;
        }
          ∷ [])
        (s', logs)

  -- `super.createMany`, row by row.
  abbrev pub create_rows : List (Fields V) → Store → List (Fields V) × Store
  create_rows [] s = ([], s)
  create_rows (dto ∷ dtos) s =
      let (row, after_row) = t.create_one dto s in
      let (rows, after_rows) = create_rows dtos after_row in (row ∷ rows, after_rows)

  abbrev pub log_of_many : Request → Fields V → AuditLog
  log_of_many req row = record {
    action = none;
    user_id = req.user_id;
    old_values = none;
    new_values = some row;
  }

  unfoldable pub create_many : Request → List (Fields V) → State → State
  create_many req dtos (s, logs) =
      let (rows, s') = create_rows dtos s in
      create_audit_log (map (log_of_many req) rows) (s', logs)

  -- `{...fields, ...more}`.
  abbrev pub spread : Fields V → Fields V → Fields V
  spread fields [] = fields
  spread fields ((k, v) ∷ more) = spread (set k v fields) more

  abbrev pub to_save : Request → Fields V → Fields V → Fields V
  to_save req found dto =
      if req.allow_params_override
      then spread (spread found dto) req.auth_persist
      else spread (spread (spread found dto) req.params_filters) req.auth_persist

  abbrev pub logged_update : Request → Fields V → Option (Fields V) → State → State
  logged_update req found none state = state
  logged_update req found (some result) state =
      create_audit_log
        (record {
          action = some update;
          user_id = req.user_id;
          old_values = some found;
          new_values = some result;
        }
          ∷ [])
        state

  -- An entity that is found is saved and, unless the answer is shallow, read again by its new key.
  abbrev pub update_found : Request → Fields V → Option (Fields V) → State → State
  update_found req dto none state = state
  update_found req dto (some found) (s, logs) =
      let (updated, s') = save (to_save req found dto) s in
      logged_update req found
        (if req.return_shallow then some updated else find (key_of updated) s') (s', logs)

  unfoldable pub update_one : Request → Fields V → State → State
  update_one req dto (s, logs) = update_found req dto (find req.key s) (s, logs)

  abbrev pub delete_found : Request → Option (Fields V) → State → State
  delete_found req none state = state
  delete_found req (some found) (s, logs) =
      create_audit_log
        (record {
          action = some delete;
          user_id = req.user_id;
          old_values = some found;
          new_values = none;
        }
          ∷ [])
        (if req.soft_delete then soft_remove found s else remove found s, logs)

  unfoldable pub delete_one : Request → State → State
  delete_one req (s, logs) = delete_found req (find req.key s) (s, logs)
