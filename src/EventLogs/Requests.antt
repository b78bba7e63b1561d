-- ===== src/EventLogs/Requests.antt =====
-- `EventLogsService.audit`, `EventLogInterceptor` and `EventLogMiddleware` of
-- packages/users-backend/src/event-logs, and how Nest runs them: the middleware before all else,
-- the interceptor unless a guard stops the request, and the middleware's listener once the response
-- is finished.
use boar_pack.Base.{
  ℕ, String, ◌-◌, Bool, true, ◌&&◌, Option, none, some, List, [], ◌∷◌, ◌++◌, text_eq, number_eq,
  leb, ltb, if◌then◌else◌, ◌==◌,
}
use boar_pack.Dict.{set, has}
use boar_pack.Users.{Role}

pub data LogLevel : Type 0 where
  info warning error : LogLevel

pub data UserRole : Type 0 where
  admin user guest system : UserRole

-- A body, its values written as texts.
abbrev pub Payload : Type 0
Payload = List (String × String)

-- What the log reads of `request.user`.
pub record Requester : Type 0 where
  pub id : Option String
  pub name : Option String
  pub role : Option Role

-- A request; `handled` is the mark `requestHandled` that the service puts on it.
pub record Request : Type 0 where
  pub user : Option Requester
  pub body : Option Payload
  pub method : Option String
  pub url : Option String
  pub param_id : Option String
  pub ip : Option String
  pub user_agent : Option String
  pub handled : Bool

-- What the callers of `audit` put into its entry.
pub record Entry : Type 0 where
  pub action : String
  pub entity : String
  pub service : Option String
  pub service_id : Option String
  pub duration : ℕ
  pub status_code : ℕ
  pub log_level : LogLevel

-- What `audit` itself reads of the request, `logPartial`.
pub record Subject : Type 0 where
  pub user_id : Option String
  pub user_name : Option String
  pub user_role : UserRole
  pub payload : Option Payload
  pub method : Option String
  pub url : Option String
  pub entity_id : Option String
  pub ip_address : Option String
  pub user_agent : Option String

-- An audit row: the two parts have no field in common.
pub record Log : Type 0 where
  pub subject : Subject
  pub entry : Entry

-- `x || null`
abbrev pub or_null : Option String → Option String
or_null none = none
or_null (some s) = if s == "" then none else some s

abbrev pub role_of : Option Requester → UserRole
role_of none = guest
role_of (some r) = elim r.role [ some Role.admin ↦ admin | some Role.user ↦ user | none ↦ guest ]

-- `SkipEventsLog`: the option `true`, the names of fields of the body, or no option.
pub data SkipOptions : Type 0 where
  skip_all unset : SkipOptions
  skip_body : (fields : List String) → SkipOptions

-- A field's name is none of those that every JavaScript object has.
abbrev pub mask : List String → Payload → Payload
mask [] p = p
mask (f ∷ fs) p = mask fs (if has f p then set f "*****" p else p)

abbrev pub masked : SkipOptions → Option Payload → Option Payload
masked (skip_body fields) (some p) = some (mask fields p)
masked _ body = body

abbrev pub user_id_of : Option Requester → Option String
user_id_of none = none
user_id_of (some r) = or_null r.id

abbrev pub user_name_of : Option Requester → Option String
user_name_of none = none
user_name_of (some r) = or_null r.name

abbrev pub subject_of : SkipOptions → Request → Subject
subject_of options r = record {
  user_id = user_id_of r.user;
  user_name = user_name_of r.user;
  user_role = role_of r.user;
  payload = masked options r.body;
  method = or_null r.method;
  url = or_null r.url;
  entity_id = or_null r.param_id;
  ip_address = or_null r.ip;
  user_agent = or_null r.user_agent;
}

unfoldable pub audit : Entry → SkipOptions → Request → List Log → Request × List Log
audit entry options r store = if r.handled then (r, store) else (
  record r { handled = true },
  store ++ record { subject = subject_of options r; entry = entry } ∷ [],
)

abbrev pub level_of : ℕ → LogLevel
level_of status = if leb 500 status then error else if leb 400 status then warning else info

-- The configuration of the service and the clock's two readings.
pub record Setting : Type 0 where
  pub service : Option String
  pub service_id : Option String
  pub started : ℕ
  pub finished : ℕ

abbrev pub entry_of : Setting → String → String → ℕ → LogLevel → Entry
entry_of at action entity status level = record {
  action = action;
  entity = entity;
  service = at.service;
  service_id = or_null at.service_id;
  duration = at.finished - at.started;
  status_code = status;
  log_level = level;
}

-- How the handler ends: with the response's status, or with an error that has one or not.
pub data Outcome : Type 0 where
  returned : (status : ℕ) → Outcome
  threw : (status : Option ℕ) → Outcome

-- `error?.getStatus?.() || 500`
abbrev pub or_500 : Option ℕ → ℕ
or_500 none = 500
or_500 (some status) = if status == 0 then 500 else status

abbrev pub logged_status : Outcome → ℕ
logged_status (returned status) = status
logged_status (threw status) = or_500 status

abbrev pub logged_level : Outcome → LogLevel
logged_level (returned status) = level_of status
logged_level (threw status) = if leb 500 (or_500 status) then error else warning

-- The handler and its controller.
pub record Handler : Type 0 where
  pub name : String
  pub controller : String
  pub options : SkipOptions

abbrev pub audit_unless : SkipOptions → Entry → Request → List Log → Request × List Log
audit_unless skip_all entry r store = (r, store)
audit_unless unset entry r store = audit entry unset r store
audit_unless (skip_body fields) entry r store = audit entry (skip_body fields) r store

unfoldable pub intercept : Setting → Handler → Outcome → Request → List Log → Request × List Log
intercept at h outcome r store =
    audit_unless h.options
      (entry_of at h.name h.controller (logged_status outcome) (logged_level outcome)) r store

-- The listener of the middleware; `entity` is made of the words of the URL's path.
unfoldable pub finish : Setting → String → String → ℕ → Request → List Log → Request × List Log
finish at method entity status r store =
    if r.handled
    then (r, store)
    else if leb 200 status && ltb status 300
    then (r, store)
    else audit (entry_of at method entity status (level_of status)) unset r store

-- A guard stops the request, or the handler runs to an outcome.
pub data Passage : Type 0 where
  stopped : Passage
  reaches : (outcome : Outcome) → Passage

unfoldable pub passed : Setting → Handler → Passage → Request → List Log → Request × List Log
passed at h stopped r store = (r, store)
passed at h (reaches outcome) r store = intercept at h outcome r store

unfoldable pub serve :
    Setting → Handler → Passage → String → String → ℕ → Request → List Log → Request × List Log
serve at h passage method entity status r store =
    let (r', store') = passed at h passage r store in finish at method entity status r' store'
