-- ===== src/EventLogs/Tests.antt =====
-- The log of a login at concrete inputs.
use boar_pack.Base.{
  ◌+◌, ◌≡◌, refl, false, not, ◌||◌, none, some, List, [], ◌∷◌, text_eq, ◌++◌, length, if◌then◌else◌,
}
use boar_pack.EventLogs.Requests.{
  Request, Log, Setting, Handler, skip_body, returned, stopped, reaches, serve,
}
use boar_pack.EventLogs.Store.{PartialLog, Event, operates, applies, ten_seconds}
use boar_pack.EventLogs.Store
use boar_pack.EventLogs.Saved.{concat, logged_in, run-logged}
use boar_pack.EventLogs.Once.{
  is_intercepted, is_success, serve_once, logged_field, serve_masks, stopped_exposes,
}

abbrev login_request : Request
login_request = record {
  user = none;
  body = some (("email", "ann@example.com") ∷ ("password", "secret") ∷ []);
  method = some "POST";
  url = some "/auth/login";
  param_id = none;
  ip = some "127.0.0.1";
  user_agent = none;
  handled = false;
}

abbrev login_handler : Handler
login_handler = record {
  name = "login";
  controller = "LocalAuthController";
  options = skip_body ("password" ∷ []);
}

abbrev no_logs : List Log
no_logs = []

abbrev at_noon : Setting
at_noon = record { service = some "api"; service_id = none; started = 1000; finished = 1040 }

serve_once_example :
    length
      (serve at_noon login_handler
        (reaches (returned 201))
        "POST"
        "Auth Login"
        201
        login_request
        []).1
    ≡ length no_logs
      + (if is_intercepted login_handler.options (reaches (returned 201)) || not (is_success 201)
          then 1
          else 0)
serve_once_example =
    serve_once at_noon login_handler (reaches (returned 201)) "POST" "Auth Login" 201 login_request
      [] refl

serve_masks_example :
    logged_field "password"
      (serve at_noon login_handler
        (reaches (returned 201))
        "POST"
        "Auth Login"
        201
        login_request
        []).1
    ≡ some "*****"
unfolding boar_pack.Dict.get
serve_masks_example =
    serve_masks at_noon login_handler ("password" ∷ []) (returned 201) "POST" "Auth Login" 201
      login_request [] "password" refl refl

stopped_login_shown :
    logged_field "password"
      (serve at_noon login_handler stopped "POST" "Auth Login" 401 login_request []).1
    ≡ some "secret"
unfolding boar_pack.Dict.get
stopped_login_shown =
    stopped_exposes at_noon login_handler "POST" "Auth Login" 401 login_request [] "password" refl
      refl

abbrev started : PartialLog
started = record {
  log_type = none;
  log_level = none;
  user_role = none;
  service = some "api";
  service_id = none;
  payload = [];
}

abbrev morning : List Event
morning = operates started ∷ ten_seconds ∷ ten_seconds ∷ applies started ∷ []

run-logged_example : concat (Store.run morning []).1 ++ (Store.run morning []).0 ≡ logged_in morning
run-logged_example = run-logged morning []

-- The second save finds nothing.
one_batch : length (Store.run morning []).1 ≡ 1
unfolding Store.run Store.step Store.operational_log Store.application_log
    Store.save_accumulated_logs
one_batch = refl
