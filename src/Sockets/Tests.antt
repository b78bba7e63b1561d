-- ===== src/Sockets/Tests.antt =====
-- The sockets of both sides at concrete inputs.
use boar_pack.Base.{
  ℕ, Bool, some, ◌+◌, ◌≡◌, refl, true, false, List, [], ◌∷◌, ◌++◌, number_eq, text_eq, member,
}
use boar_pack.Sockets.Clients.{State, connecting, is_open, connect, fire, socket_closes, close}
use boar_pack.Sockets.Reconnecting.{reconnect_outlives_close}
use boar_pack.Dict.{get, set}
use boar_pack.Users.{User, admin}
use boar_pack.Sockets.Server.{
  Event, connects, authenticates, answers, checks, taken, after, check_clients,
}
use boar_pack.Sockets.Liveness.{
  Unanswered, terminates-Unanswered, silent_dropped, was_taken, client-taken,
}
use boar_pack.Sockets.Browser as B
use boar_pack.Sockets.Tidiness.{count}
use boar_pack.Sockets.Delivery.{run_delivers, run_keeps_order}

abbrev ann : User
ann = record { id = "u1"; email = "ann@example.com"; role = admin; permissions = [] }

abbrev checked_once : List Event
checked_once = checks ∷ authenticates 7 (taken ann) ∷ connects 7 ∷ []

terminates-Unanswered_example :
    (member 7 (after checked_once).clients ≡ true) × Unanswered 7 checked_once
unfolding after boar_pack.Sockets.Server.step boar_pack.Sockets.Server.authenticated
    boar_pack.Sockets.Server.add_client boar_pack.Sockets.Server.check_each
    boar_pack.Sockets.Server.check_client boar_pack.Sockets.Server.handle_connection get set
    check_clients
terminates-Unanswered_example = terminates-Unanswered 7 checked_once refl

silent_dropped_example :
    member 7 (after (checks ∷ [] ++ checks ∷ authenticates 7 (taken ann) ∷ [])).clients ≡ false
unfolding after boar_pack.Sockets.Server.step boar_pack.Sockets.Server.authenticated
    boar_pack.Sockets.Server.add_client
silent_dropped_example = silent_dropped 7 [] (authenticates 7 (taken ann) ∷ []) refl tt

was_taken_by_ann : was_taken 7 (authenticates 7 (taken ann) ∷ []) ≡ true
unfolding after boar_pack.Sockets.Server.step boar_pack.Sockets.Server.authenticated
    boar_pack.Sockets.Server.add_client
was_taken_by_ann = client-taken 7 (authenticates 7 (taken ann) ∷ []) refl

-- A payload waits for the socket, another goes out at once, and a third waits for the next socket.
abbrev session : List B.Event
session =
    B.connects
    ∷ B.sends "a"
    ∷ B.opens 0 []
    ∷ B.sends "b"
    ∷ B.closes 0
    ∷ B.sends "c"
    ∷ B.connects
    ∷ []

session_wire : (B.run session B.before_all).wire ≡ "a" ∷ "b" ∷ []
unfolding B.run B.step B.connect B.send B.on_open B.on_close B.greet B.flush_pending_payloads
    B.send_each B.send_payload get set
session_wire = refl

run_delivers_example :
    count "c" (B.run session B.before_all).wire
      + count "c" (B.run session B.before_all).pending_payloads
    ≡ count "c" (B.run session B.before_all).given
unfolding B.step B.connect B.send B.on_open B.on_close B.greet B.flush_pending_payloads B.send_each
    B.send_payload get set
run_delivers_example =
    run_delivers session (refl, (refl, (refl, (refl, (refl, (refl, (refl, tt))))))) "c"

sent_in_turn :
    (B.run session B.before_all).wire ++ (B.run session B.before_all).pending_payloads
    ≡ (B.run session B.before_all).given
unfolding B.step B.connect B.send B.on_open B.on_close B.greet B.flush_pending_payloads B.send_each
    B.send_payload get set
sent_in_turn =
    run_keeps_order session refl (refl, (refl, (refl, (refl, (refl, (refl, (refl, tt)))))))

-- A connection of the backend that always reconnects.
abbrev always : ℕ → Bool
always config = true

abbrev backend : State
backend = record {
  sockets = (0, record { config = 7; ready_state = is_open; is_listening = true }) ∷ [];
  clients = (0, 7) ∷ [];
  reconnect_timeouts = [];
  timers = [];
  next = 1;
}

backend_connects :
    connect 7 (record backend { sockets = []; clients = []; next = 0 }) ≡ record backend {
      sockets = (0, record { config = 7; ready_state = connecting; is_listening = true }) ∷ [];
    }
unfolding connect set
backend_connects = refl

opened_again :
    (get 1 (close always 0 (socket_closes always 0 backend)).timers ≡ some 7)
    × (get
          (close always 0 (socket_closes always 0 backend)).next
          (fire 1 (close always 0 (socket_closes always 0 backend))).clients
        ≡ some 7)
unfolding get
opened_again =
    reconnect_outlives_close always 0
      (record { config = 7; ready_state = is_open; is_listening = true }) backend refl refl refl
      refl
