-- ===== src/Sockets/Delivery.antt =====
-- What WebsocketClient.ts does with the payloads it is given.
use boar_pack.Base.{
  String, ◌+◌, ◌≡◌, refl, sym, ap, ◌∙◌, Bool, true, false, not, all, none, some, List, [], ◌∷◌,
  ◌++◌, append-nil, append_assoc, number_eq, text_eq, member, is_some, arith, Bool-cases,
  Option-cases, inl, inr,
}
use boar_pack.Dict.{set}
use boar_pack.Sockets.Browser.{
  opened, closed, World, current_open, connect, close_socket, send, on_open, on_close, Message,
  invalid_json, error, other, status, on_message, Event, connects, closes_itself, sends, opens,
  fails, closes, receives, step, run, before_all,
}
use boar_pack.Sockets.Flushing.{sent, said, send-open, on_open-open}
use boar_pack.Sockets.Tidiness.{
  count, Tidy, permitted, IsSerial, connect-Tidy, settle-Tidy, close_socket-Tidy, send-Tidy,
  opened-Tidy, on_close-Tidy, on_message-Tidy, opens_own,
}

no_socket : (w : World) → not (is_some w.socket) ≡ true → w.socket ≡ none
no_socket w h = elim (Option-cases w.socket) [
  | inl nothing ↦ nothing
  | inr (s, there) ↦ ground (arith, h, there)
]

step-Tidy : (e : Event) (w : World) → permitted e w ≡ true → Tidy w → Tidy (step e w)
unfolding step
step-Tidy connects w h t = connect-Tidy w (no_socket w h) t
step-Tidy closes_itself w h t = close_socket-Tidy w t
step-Tidy (sends p) w h t = send-Tidy p w t
step-Tidy (opens s greeting) w h t = elim (Bool-cases (member s w.listening)) [
  | inl own ↦ rw own (
      opened-Tidy greeting (record w { ready = set s opened w.ready })
        (opens_own w.socket s w.ready (rw t.listens at own)) t.listens t.balanced)
  | inr foreign ↦ rw foreign (settle-Tidy s opened w (rw foreign refl) t)
]
step-Tidy (fails s) w h t = elim (Bool-cases (member s w.listening)) [
  | inl own ↦ rw own (close_socket-Tidy w t)
  | inr foreign ↦ rw foreign t
]
step-Tidy (closes s) w h t =
    let shut = settle-Tidy s closed w (ground arith) t in
    elim (Bool-cases (member s w.listening)) [
      | inl own ↦ rw own (on_close-Tidy (record w { ready = set s closed w.ready }) shut)
      | inr foreign ↦ rw foreign shut
    ]
step-Tidy (receives s m) w h t = elim (Bool-cases (member s w.listening)) [
  | inl own ↦ rw own (on_message-Tidy m w t)
  | inr foreign ↦ rw foreign t
]

run-Tidy : (es : List Event) (w : World) → IsSerial es w → Tidy w → Tidy (run es w)
unfolding run
run-Tidy [] w h t = t
run-Tidy (e ∷ es) w (h, hs) t = run-Tidy es (step e w) hs (step-Tidy e w h t)

before_all-Tidy : Tidy before_all
before_all-Tidy = record { listens = refl; flushed = refl; balanced = λ p. refl }

-- As long as the client connects only while it has no socket, every payload that `send` is called
-- with goes out or waits, as often as `send` is called with it.
pub run_delivers :
    (es : List Event)
    → IsSerial es before_all
    → (p : String)
    → count p (run es before_all).wire + count p (run es before_all).pending_payloads
      ≡ count p (run es before_all).given
run_delivers es h p = (run-Tidy es before_all h before_all-Tidy).balanced p

-- The open handler sends nothing.
abbrev pub greets_nobody : Event → Bool
greets_nobody (opens s (p ∷ ps)) = false
greets_nobody _ = true

send_in_order :
    (p : String) (w : World)
    → Tidy w
    → w.wire ++ w.pending_payloads ≡ w.given
    → (send p w).wire ++ (send p w).pending_payloads ≡ (send p w).given
unfolding send said sent
send_in_order p w t h = elim (Bool-cases (current_open w)) [
  | inl now ↦ rw (send-open p w now) (
      ap (λ ps. (w.wire ++ p ∷ []) ++ ps) (rw now at t.flushed)
      ∙ append-nil (w.wire ++ p ∷ [])
      ∙ ap (λ ps. ps ++ p ∷ [])
          (sym (append-nil w.wire) ∙ ap (λ ps. w.wire ++ ps) (sym (rw now at t.flushed)) ∙ h))
  | inr not_yet ↦
      rw not_yet (sym (append_assoc w.wire w.pending_payloads (p ∷ [])) ∙ ap (λ ps. ps ++ p ∷ []) h)
]

open_in_order :
    (w : World)
    → current_open w ≡ true
    → w.wire ++ w.pending_payloads ≡ w.given
    → (on_open [] w).wire ++ (on_open [] w).pending_payloads ≡ (on_open [] w).given
unfolding said sent
open_in_order w now h = rw (on_open-open [] w now) (
    append-nil ((w.wire ++ []) ++ w.pending_payloads)
    ∙ ap (λ ps. ps ++ w.pending_payloads) (append-nil w.wire)
    ∙ h
    ∙ sym (append-nil w.given))

message_in_order :
    (m : Message) (w : World)
    → w.wire ++ w.pending_payloads ≡ w.given
    → (on_message m w).wire ++ (on_message m w).pending_payloads ≡ (on_message m w).given
unfolding on_message close_socket
message_in_order invalid_json w h = h
message_in_order error w h = h
message_in_order other w h = h
message_in_order (status none) w h = h
message_in_order (status (some r)) w h = h

step_in_order :
    (e : Event) (w : World)
    → greets_nobody e ≡ true
    → Tidy w
    → w.wire ++ w.pending_payloads ≡ w.given
    → (step e w).wire ++ (step e w).pending_payloads ≡ (step e w).given
unfolding step connect close_socket on_close
step_in_order connects w g t h = h
step_in_order closes_itself w g t h = h
step_in_order (sends p) w g t h = send_in_order p w t h
step_in_order (opens s (p ∷ ps)) w g t h = ground (arith, g)
step_in_order (opens s []) w g t h = elim (Bool-cases (member s w.listening)) [
  | inl own ↦ rw own (
      open_in_order (record w { ready = set s opened w.ready })
        (opens_own w.socket s w.ready (rw t.listens at own)) h)
  | inr foreign ↦ rw foreign h
]
step_in_order (fails s) w g t h = elim (Bool-cases (member s w.listening)) [
  | inl own ↦ rw own h
  | inr foreign ↦ rw foreign h
]
step_in_order (closes s) w g t h = elim (Bool-cases (member s w.listening)) [
  | inl own ↦ rw own h
  | inr foreign ↦ rw foreign h
]
step_in_order (receives s m) w g t h = elim (Bool-cases (member s w.listening)) [
  | inl own ↦ rw own (message_in_order m w h)
  | inr foreign ↦ rw foreign h
]

run_in_order :
    (es : List Event) (w : World)
    → all greets_nobody es ≡ true
    → IsSerial es w
    → Tidy w
    → w.wire ++ w.pending_payloads ≡ w.given
    → (run es w).wire ++ (run es w).pending_payloads ≡ (run es w).given
unfolding run
run_in_order [] w g s t h = h
run_in_order (e ∷ es) w g (s, ss) t h =
    run_in_order es (step e w) (ground (arith, g)) ss (step-Tidy e w s t)
      (step_in_order e w (ground (arith, g)) t h)

-- As long as the client connects only while it has no socket, and its open handler sends nothing,
-- what went out and then what waits are the payloads that `send` was called with, in their order.
pub run_keeps_order :
    (es : List Event)
    → all greets_nobody es ≡ true
    → IsSerial es before_all
    → (run es before_all).wire ++ (run es before_all).pending_payloads ≡ (run es before_all).given
run_keeps_order es g s = run_in_order es before_all g s before_all-Tidy refl
