-- ===== src/Sockets/Browser.antt =====
-- `WebsocketClient` of packages/common-frontend/src/tools/WebsocketClient.ts, and of the browser what
-- its documentation says of a WebSocket: its ready state, to whom its events go, and that `send`
-- throws while the socket connects and drops the data once it closes. What the handlers of
-- messages and of the close do with the client are events of their own.
use boar_pack.Base.{
  ℕ, suc, String, Bool, true, false, Option, none, some, List, [], ◌∷◌, ◌++◌, number_eq, member,
  remove, if◌then◌else◌,
}
use boar_pack.Dict.{get, set}

pub data Ready : Type 0 where
  connecting opened closing closed : Ready

pub record World : Type 0 where
  -- The client: `socket`, `serverSocketStatus`, `pendingPayloads`.
  pub socket : Option ℕ
  pub server_socket_status : Ready
  pub pending_payloads : List String
  -- The browser: the sockets created, those on which the client listens, and what went out.
  pub created : ℕ
  pub ready : List (ℕ × Ready)
  pub listening : List ℕ
  pub wire : List String
  -- All payloads that `send` was called with, in order.
  pub given : List String

abbrev pub is_open : Option Ready → Bool
is_open (some opened) = true
is_open _ = false

-- `this.socket?.readyState === WebSocket.OPEN`
abbrev pub open_in : Option ℕ → List (ℕ × Ready) → Bool
open_in none ready = false
open_in (some s) ready = is_open (get s ready)

abbrev pub current_open : World → Bool
current_open w = open_in w.socket w.ready

unfoldable pub connect : World → World
connect w = record w {
  socket = some w.created;
  server_socket_status = connecting;
  created = suc w.created;
  ready = set w.created connecting w.ready;
  listening = w.created ∷ w.listening;
}

-- What the browser does on `this.socket?.close()`.
abbrev pub ready_closing : Option ℕ → List (ℕ × Ready) → List (ℕ × Ready)
ready_closing none ready = ready
ready_closing (some s) ready = elim (get s ready) [ some closed ↦ ready | _ ↦ set s closing ready ]

unfoldable pub close_socket : World → World
close_socket w = record w { ready = ready_closing w.socket w.ready }

-- An exception of the socket is caught and logged.
unfoldable pub send_payload : String → World → World
send_payload p w = record w { wire = if current_open w then w.wire ++ p ∷ [] else w.wire }

unfoldable pub send : String → World → World
send p w =
    let called = record w { given = w.given ++ p ∷ [] } in
    if current_open w
    then send_payload p called
    else record called { pending_payloads = w.pending_payloads ++ p ∷ [] }

unfoldable pub send_each : List String → World → World
send_each [] w = w
send_each (p ∷ ps) w = send_each ps (send_payload p w)

unfoldable pub flush_pending_payloads : World → World
flush_pending_payloads w = send_each w.pending_payloads (record w { pending_payloads = [] })

-- The open handler sends the payloads of a greeting.
unfoldable pub greet : List String → World → World
greet [] w = w
greet (p ∷ ps) w = greet ps (send p w)

unfoldable pub on_open : List String → World → World
on_open greeting w = flush_pending_payloads (greet greeting w)

abbrev pub unlisten : Option ℕ → List ℕ → List ℕ
unlisten none listening = listening
unlisten (some s) listening = remove s listening

unfoldable pub on_close : World → World
on_close w = record w { listening = unlisten w.socket w.listening; socket = none }

-- A message that is no JSON, an `error`, a `status`, with or without its value, or any other.
pub data Message : Type 0 where
  invalid_json error other : Message
  status : (value : Option Ready) → Message

unfoldable pub on_message : Message → World → World
on_message invalid_json w = close_socket w
on_message error w = close_socket w
on_message other w = w
on_message (status none) w = w
on_message (status (some r)) w = record w { server_socket_status = r }

unfoldable pub get_status : World → Option Ready
get_status w = elim w.server_socket_status [
  | opened ↦ elim w.socket [ some s ↦ get s w.ready | none ↦ none ]
  | r ↦ some r
]

-- A call of `connect`, by the constructor or a timer, of `send` or of `close`, or an event of a
-- socket, which the client sees if it listens.
pub data Event : Type 0 where
  connects closes_itself : Event
  sends : (payload : String) → Event
  opens : (socket : ℕ) → (greeting : List String) → Event
  fails : (socket : ℕ) → Event
  closes : (socket : ℕ) → Event
  receives : (socket : ℕ) → (message : Message) → Event

unfoldable pub step : Event → World → World
step connects w = connect w
step closes_itself w = close_socket w
step (sends p) w = send p w
step (opens s greeting) w =
    let there = record w { ready = set s opened w.ready } in
    if member s w.listening then on_open greeting there else there
step (fails s) w = if member s w.listening then close_socket w else w
step (closes s) w =
    let shut = record w { ready = set s closed w.ready } in
    if member s w.listening then on_close shut else shut
step (receives s message) w = if member s w.listening then on_message message w else w

unfoldable pub run : List Event → World → World
run [] w = w
run (e ∷ es) w = run es (step e w)

abbrev pub before_all : World
before_all = record {
  socket = none;
  server_socket_status = closed;
  pending_payloads = [];
  created = 0;
  ready = [];
  listening = [];
  wire = [];
  given = [];
}
