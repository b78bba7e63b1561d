-- ===== src/Sockets/SendTests.antt =====
-- Sending on a socket of the backend at concrete inputs.
use boar_pack.Base.{
  ℕ, String, ◌≡◌, refl, true, false, Option, none, some, [], ◌∷◌, number_eq, ◌==◌, if◌then◌else◌,
}
use boar_pack.Dict.{get, has}
use boar_pack.Sockets.Clients.{connecting}
use boar_pack.Sockets.Sending.{
  Channel, sends, socket_opens, second_passes, calls_back, rejected, resolved, send, opens,
  times_out, run,
}
use boar_pack.Sockets.Unsettled.{run-settles}
use boar_pack.Sockets.Lost.{unserializable_never_settles, send_outlives_timeout}

abbrev fresh : Channel
fresh = record {
  ready_state = connecting;
  waiting = [];
  timeouts = [];
  in_flight = [];
  settled = [];
  wire = [];
}

abbrev any_text : ℕ → Option String
any_text d = some "{}"

-- A value that holds itself cannot be written.
abbrev no_circles : ℕ → Option String
no_circles d = if d == 9 then none else some "{}"

run-settles_example :
    has 1
      (run any_text
        (second_passes 1 ∷ calls_back 1 resolved ∷ [])
        (run any_text (sends 2 5 ∷ socket_opens ∷ []) (send any_text 1 4 fresh))).settled
    ≡ true
run-settles_example =
    run-settles any_text (λ d. refl) 1 4 resolved (sends 2 5 ∷ socket_opens ∷ []) fresh

circle_is_lost :
    has 1
      (run no_circles (second_passes 1 ∷ []) (opens no_circles (send no_circles 1 9 fresh))).settled
    ≡ false
unfolding has
circle_is_lost =
    unserializable_never_settles no_circles 1 9 (second_passes 1 ∷ []) fresh refl refl refl refl
      refl

sent_late :
    (get 1 (opens any_text (times_out 1 (send any_text 1 4 fresh))).settled ≡ some rejected)
    × ((opens any_text (times_out 1 (send any_text 1 4 fresh))).wire ≡ "{}" ∷ [])
unfolding has
sent_late = send_outlives_timeout any_text 1 4 "{}" fresh refl refl refl refl
