-- ===== src/Sockets/Reconnecting.antt =====
-- When a request to close a connection stops its reconnection.
use boar_pack.Base.{
  ℕ, ◌≡◌, refl, ap, ◌∙◌, Bool, true, false, Option, none, some, number_eq, ==_refl, Bool-cases, inl,
  inr,
}
use boar_pack.Dict.{get, set, get-set, get-delete}
use boar_pack.Sockets.Clients.{
  Socket, ReadyState, closed, closing, State, connect, reconnect, fire, is_closed, put, on_close,
  socket_closes, close,
}

-- The parts of the state that a change of a socket leaves alone.
abbrev SameBesideSockets : State → State → Type 0
SameBesideSockets s t = (t.clients ≡ s.clients) × (t.timers ≡ s.timers) × (t.next ≡ s.next)

put_keeps :
    (client : ℕ) (r : ReadyState) (b : Bool) (ws : Option Socket) (s : State)
    → SameBesideSockets s (put client r b ws s)
put_keeps client r b none s = (refl, refl, refl)
put_keeps client r b (some ws) s = (refl, refl, refl)

get-fire :
    (timer config : ℕ) (s : State)
    → get timer s.timers ≡ some config
    → get s.next (fire timer s).clients ≡ some config
unfolding fire connect
get-fire timer config s h = rw h (get-set s.next s.next config s.clients ∙ rw (==_refl s.next) refl)

reconnected :
    (client config : ℕ) (s : State)
    → get client s.clients ≡ some config
    → ((reconnect client s).timers ≡ set s.next config s.timers)
      × ((reconnect client s).clients ≡ s.clients)
unfolding reconnect
reconnected client config s h = rw h (refl, refl)

module _ (asks_reconnect : ℕ → Bool) where
  -- Closing a connection that is not registered clears no timer.
  close-timers :
      (client : ℕ) (s : State)
      → get client s.clients ≡ none
      → (close asks_reconnect client s).timers ≡ s.timers
  unfolding close on_close
  close-timers client s missing = elim (Bool-cases (is_closed (get client s.sockets))) [
    | inl shut ↦ rw (missing, shut) (put_keeps client closed false (get client s.sockets) s).1
    | inr still ↦ rw (missing, still) (put_keeps client closing _ (get client s.sockets) s).1
  ]

  on_close_reconnects :
      (client config : ℕ) (s : State)
      → get client s.clients ≡ some config
      → asks_reconnect config ≡ true
      → ((on_close asks_reconnect client (some config) s).timers ≡ set s.next config s.timers)
        × (get client (on_close asks_reconnect client (some config) s).clients ≡ none)
  unfolding on_close
  on_close_reconnects client config s registered asks =
      let silent = put client closed false (get client s.sockets) s in
      let (clients, timers, next) = put_keeps client closed false (get client s.sockets) s in
      let (timed, kept) = reconnected client config silent (ap (get client) clients ∙ registered) in
      rw asks (
        timed ∙ ap (λ n. set n config silent.timers) next ∙ ap (set s.next config) timers,
        get-delete client client (reconnect client silent).clients ∙ rw (==_refl client) refl,
      )

  -- What an event `close` leaves if the callback reconnects.
  socket_closes_lem :
      (client : ℕ) (ws : Socket) (s : State)
      → get client s.sockets ≡ some ws
      → ws.is_listening ≡ true
      → get client s.clients ≡ some ws.config
      → asks_reconnect ws.config ≡ true
      → ((socket_closes asks_reconnect client s).timers ≡ set s.next ws.config s.timers)
        × (get client (socket_closes asks_reconnect client s).clients ≡ none)
  unfolding socket_closes
  socket_closes_lem client ws s found listening registered asks =
      let shut = put client closed true (some ws) s in
      rw (found, listening) (on_close_reconnects client ws.config shut registered asks)

  -- A connection whose closing asks to reconnect: after its socket has closed, a request to close it
  -- clears no timer, and the timer then connects its configuration again.
  pub reconnect_outlives_close :
      (client : ℕ) (ws : Socket) (s : State)
      → get client s.sockets ≡ some ws
      → ws.is_listening ≡ true
      → get client s.clients ≡ some ws.config
      → asks_reconnect ws.config ≡ true
      → let after = close asks_reconnect client (socket_closes asks_reconnect client s) in
        (get s.next after.timers ≡ some ws.config)
        × (get after.next (fire s.next after).clients ≡ some ws.config)
  reconnect_outlives_close client ws s found listening registered asks =
      let event = socket_closes asks_reconnect client s in
      let (timed, missing) = socket_closes_lem client ws s found listening registered asks in
      let after = close asks_reconnect client event in
      let pending : get s.next after.timers ≡ some ws.config =
        ap (get s.next) (close-timers client event missing ∙ timed)
        ∙ get-set s.next s.next ws.config s.timers
        ∙ rw (==_refl s.next) refl in
      (pending, get-fire s.next ws.config after pending)
