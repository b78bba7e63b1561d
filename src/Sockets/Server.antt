-- ===== src/Sockets/Server.antt =====
-- `WsAuthService` of packages/users-backend/src/ws-auth/ws-auth.service.ts. A socket is a number. What
-- Passport and the `ws` library call back is an event; what the service asks of a socket is an
-- effect.
use boar_pack.Base.{
  ℕ, String, Option, none, some, List, [], ◌∷◌, ◌++◌, map, number_eq, member, add, remove,
  if◌then◌else◌,
}
use boar_pack.Dict.{get, set}
use boar_pack.Users.{User}

pub record Service : Type 0 where
  -- `socketsAuthenticators`: a promise that waits, or what it was resolved to.
  pub authenticators : List (ℕ × Option (Option User))
  pub clients : List ℕ
  pub clients_to_terminate : List ℕ

pub data Effect : Type 0 where
  send : (socket : ℕ) → (text : String) → Effect
  close : (socket : ℕ) → Effect
  emit_authenticated : (socket : ℕ) → Effect
  ping : (socket : ℕ) → Effect
  terminate : (socket : ℕ) → Effect

-- How Passport ends: by the callback with an error, without a user or with one, or by `next`, with an
-- error or without.
pub data Outcome : Type 0 where
  failed refused passed_error passed_on : Outcome
  taken : (user : User) → Outcome

pub data Event : Type 0 where
  connects : (socket : ℕ) → Event
  authenticates : (socket : ℕ) → (outcome : Outcome) → Event
  disconnects : (socket : ℕ) → Event
  answers : (socket : ℕ) → Event
  broadcasts : (text : String) → Event
  checks : Event

unfoldable pub handle_connection : ℕ → Service → Service
handle_connection s st = record st { authenticators = set s none st.authenticators }

-- A promise that is resolved keeps its value.
abbrev pub resolve : ℕ → Option User → Service → Service
resolve s r st = record st {
  authenticators = elim (get s st.authenticators) [
    | some none ↦ set s (some r) st.authenticators
    | _ ↦ st.authenticators
  ];
}

unfoldable pub add_client : ℕ → Service → Service × List Effect
add_client s st =
    if member s st.clients
    then (st, [])
    else (record st { clients = add s st.clients }, emit_authenticated s ∷ [])

unfoldable pub authenticated : ℕ → Outcome → Service → Service × List Effect
authenticated s failed st = (resolve s none st, send s "Authentication error" ∷ close s ∷ [])
authenticated s refused st = (resolve s none st, send s "Authentication error" ∷ close s ∷ [])
authenticated s passed_error st = (resolve s none st, [])
authenticated s passed_on st = (st, [])
authenticated s (taken user) st =
    let (st', effects) = add_client s st in (resolve s (some user) st', effects)

-- What waits answers nothing; a socket that never connected has no user.
unfoldable pub finish_initialization : ℕ → Service → Option (Option User)
finish_initialization s st = elim (get s st.authenticators) [ some r ↦ r | none ↦ some none ]

unfoldable pub handle_disconnect : ℕ → Service → Service
handle_disconnect s st = record st { clients = remove s st.clients }

unfoldable pub broadcast : String → Service → List Effect
broadcast text st = map (λ s. send s text) st.clients

-- The handler of a pong. It is put on a socket that becomes a client; a socket without it is not in
-- the set, so that the removal changes nothing.
unfoldable pub handle_pong : ℕ → Service → Service
handle_pong s st = record st { clients_to_terminate = remove s st.clients_to_terminate }

unfoldable pub check_client : ℕ → Service → Service × List Effect
check_client s st =
    if member s st.clients_to_terminate
    then (record st { clients = remove s st.clients }, terminate s ∷ [])
    else (record st { clients_to_terminate = add s st.clients_to_terminate }, ping s ∷ [])

unfoldable pub check_each : List ℕ → Service → Service × List Effect
check_each [] st = (st, [])
check_each (s ∷ ss) st =
    let (st', here) = check_client s st in
    let (st'', later) = check_each ss st' in (st'', here ++ later)

unfoldable pub check_clients : Service → Service × List Effect
check_clients st = check_each st.clients st

unfoldable pub step : Event → Service → Service × List Effect
step (connects s) st = (handle_connection s st, [])
step (authenticates s outcome) st = authenticated s outcome st
step (disconnects s) st = (handle_disconnect s st, [])
step (answers s) st = (handle_pong s st, [])
step (broadcasts text) st = (st, broadcast text st)
step checks st = check_clients st

abbrev pub fresh_service : Service
fresh_service = record { authenticators = []; clients = []; clients_to_terminate = [] }

-- The service after a history, the latest event first.
unfoldable pub after : List Event → Service
after [] = fresh_service
after (e ∷ es) = (step e (after es)).0
