-- ===== src/EventLogs/Store.antt =====
-- The store of EventLogsService in packages/users-backend/src/event-logs/event-logs.service.ts: the
-- logs that wait to be saved, what puts them there, and the job that saves them every ten seconds.
-- EventLogsLogger in event-logs.logger.ts is one of its callers.
use boar_pack.Base.{
  String, ◌<>◌, Option, none, some, List, [], ◌∷◌, ◌++◌, number_eq, text_eq, ◌==◌, if◌then◌else◌,
}
use boar_pack.EventLogs.Requests.{LogLevel, info, warning, error, UserRole, system}

pub data LogType : Type 0 where
  audit operational application : LogType

-- A partial log, and a log as it is stored, with the fields that the service sets apart.
pub record PartialLog : Type 0 where
  pub log_type : Option LogType
  pub log_level : Option LogLevel
  pub user_role : Option UserRole
  pub service : Option String
  pub service_id : Option String
  pub payload : List (String × String)

pub record Row : Type 0 where
  pub log_type : LogType
  pub log_level : Option LogLevel
  pub user_role : Option UserRole
  pub service : Option String
  pub service_id : Option String
  pub payload : List (String × String)

-- `{ logLevel, userRole, ...eventLog, logType }`.
abbrev pub over {ℓ} : {A : Type ℓ} → Option A → A → Option A
over (some a) default = some a
over none default = some default

abbrev pub system_row : LogType → PartialLog → Row
system_row type e = record {
  log_type = type;
  log_level = over e.log_level info;
  user_role = over e.user_role system;
  service = e.service;
  service_id = e.service_id;
  payload = e.payload;
}

unfoldable pub operational_log : PartialLog → List Row → List Row
operational_log e store = store ++ system_row operational e ∷ []

unfoldable pub application_log : PartialLog → List Row → List Row
application_log e store = store ++ system_row application e ∷ []

-- `TEventLogServiceConfig`, of which the constructor of the logger makes its prefix.
pub record ServiceConfig : Type 0 where
  pub id : Option String
  pub name : String

unfoldable pub logger_prefix : ServiceConfig → String
logger_prefix c = elim c.id [
  | some id ↦ if id == "" then c.name else c.name <> " (" <> id <> ")"
  | none ↦ c.name
]

-- What the logger logs: the message, a stack if there is one, and the parameters if there are any,
-- which are written as one text.
module _ (params_text : List String → String) where
  abbrev pub stack_entry : Option String → List (String × String)
  stack_entry none = []
  stack_entry (some s) = if s == "" then [] else ("stack", s) ∷ []

  abbrev pub params_entry : List String → List (String × String)
  params_entry [] = []
  params_entry (p ∷ params) = ("optionalParams", params_text (p ∷ params)) ∷ []

  abbrev pub logged : ServiceConfig → LogLevel → List (String × String) → PartialLog
  logged c level payload = record {
    log_type = none;
    log_level = some level;
    user_role = none;
    service = some c.name;
    service_id = c.id;
    payload = payload;
  }

  unfoldable pub warn : ServiceConfig → String → List String → List Row → List Row
  warn c message optional_params =
      application_log (logged c warning (("message", message) ∷ params_entry optional_params))

  unfoldable pub log_error :
      ServiceConfig → String → Option String → List String → List Row → List Row
  log_error c message stack optional_params =
      application_log (
        logged c error (("message", message) ∷ (stack_entry stack ++ params_entry optional_params)))

-- `saveAccumulatedLogs`: the store is emptied before the rows are handed to the repository, so that
-- they are lost if it fails.
unfoldable pub save_accumulated_logs : List Row → List Row × List (List Row)
save_accumulated_logs [] = ([], [])
save_accumulated_logs (r ∷ store) = ([], (r ∷ store) ∷ [])

-- What happens to the service; `pushes_audit` is the end of `audit`.
pub data Event : Type 0 where
  pushes_audit : (row : Row) → Event
  operates applies : (e : PartialLog) → Event
  ten_seconds : Event

unfoldable pub step : Event → List Row → List Row × List (List Row)
step (pushes_audit row) store = (store ++ row ∷ [], [])
step (operates e) store = (operational_log e store, [])
step (applies e) store = (application_log e store, [])
step ten_seconds store = save_accumulated_logs store

-- The store after a history, and the batches that were handed to the repository.
unfoldable pub run : List Event → List Row → List Row × List (List Row)
run [] store = (store, [])
run (e ∷ es) store =
    let (store', batches) = step e store in
    let (store'', later) = run es store' in (store'', batches ++ later)
