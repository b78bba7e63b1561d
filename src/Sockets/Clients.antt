-- ===== src/Sockets/Clients.antt =====
-- packages/common-backend/src/modules/websockets/websockets.clients.ts: the connections of the
-- backend to other servers. Sockets, configurations and timers are numbers. Whether the `onClose`
-- of a configuration asks to reconnect is a parameter.
use boar_pack.Base.{ℕ, ◌+◌, Bool, true, false, Option, none, some, List, number_eq, if◌then◌else◌}
use boar_pack.Dict.{get, set, delete}

pub data ReadyState : Type 0 where
  connecting is_open closing closed : ReadyState

-- The configuration that the listeners of a socket hold, and whether they are still there.
pub record Socket : Type 0 where
  pub config : ℕ
  pub ready_state : ReadyState
  pub is_listening : Bool

-- `clients`, the `reconnectTimeout` of each configuration, and the timers that are to fire, each
-- with the configuration that it connects. `next` is a number that was not given.
pub record State : Type 0 where
  pub sockets : List (ℕ × Socket)
  pub clients : List (ℕ × ℕ)
  pub reconnect_timeouts : List (ℕ × ℕ)
  pub timers : List (ℕ × ℕ)
  pub next : ℕ

unfoldable pub connect : ℕ → State → State
connect config s = record s {
  sockets =
      set s.next (record { config = config; ready_state = connecting; is_listening = true })
        s.sockets;
  clients = set s.next config s.clients;
  next = s.next + 1;
}

-- `reconnect`; without a configuration it throws and changes nothing.
abbrev pub start_timer : Option ℕ → State → State
start_timer none s = s
start_timer (some config) s = record s {
  reconnect_timeouts = set config s.next s.reconnect_timeouts;
  timers = set s.next config s.timers;
  next = s.next + 1;
}

unfoldable pub reconnect : ℕ → State → State
reconnect client s = start_timer (get client s.clients) s

-- A timer fires.
abbrev pub connect_timed : Option ℕ → State → State
connect_timed none s = s
connect_timed (some config) s = connect config s

unfoldable pub fire : ℕ → State → State
fire timer s = connect_timed (get timer s.timers) (record s { timers = delete timer s.timers })

abbrev pub clear_timeout : Option ℕ → State → State
clear_timeout none s = s
clear_timeout (some timer) s = record s { timers = delete timer s.timers }

-- The timer that `close` clears.
abbrev pub timeout_of : Option ℕ → State → Option ℕ
timeout_of none s = none
timeout_of (some config) s = get config s.reconnect_timeouts

abbrev pub is_closed : Option Socket → Bool
is_closed (some ws) = elim ws.ready_state [ closed ↦ true | _ ↦ false ]
is_closed none = false

abbrev pub put : ℕ → ReadyState → Bool → Option Socket → State → State
put client ready_state is_listening none s = s
put client ready_state is_listening (some ws) s = record s {
  sockets =
      set client
        (record { config = ws.config; ready_state = ready_state; is_listening = is_listening })
        s.sockets;
}

module _ (asks_reconnect : ℕ → Bool) where
  -- `config?.onClose?.()`.
  abbrev pub call_on_close : ℕ → Option ℕ → State → State
  call_on_close client none s = s
  call_on_close client (some config) s = if asks_reconnect config then reconnect client s else s

  -- The method `onClose`, on a socket that is closed.
  unfoldable pub on_close : ℕ → Option ℕ → State → State
  on_close client config s =
      let called = call_on_close client config (put client closed false (get client s.sockets) s) in
      record called { clients = delete client called.clients }

  abbrev pub closed_socket : ℕ → Option Socket → State → State
  closed_socket client none s = s
  closed_socket client (some ws) s =
      let shut = put client closed ws.is_listening (some ws) s in
      if ws.is_listening then on_close client (some ws.config) shut else shut

  -- The event `close` of a socket, which it emits once.
  unfoldable pub socket_closes : ℕ → State → State
  socket_closes client s = closed_socket client (get client s.sockets) s

  -- The method `close`; a socket that is not closed yet emits its event later.
  unfoldable pub close : ℕ → State → State
  close client s =
      let config = get client s.clients in
      let cleared = clear_timeout (timeout_of config s) s in
      let ws = get client cleared.sockets in
      if is_closed ws
      then on_close client config cleared
      else put client closing (elim ws [ some w ↦ w.is_listening | none ↦ false ]) ws cleared
