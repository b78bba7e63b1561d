-- ===== src/Sockets/Sending.antt =====
-- `send` of packages/common-backend/src/modules/websockets/websockets.clients.ts, on one socket, and
-- its listener of messages. Each call has a number; `serialize` is `JSON.stringify`, which throws on
-- some values; that a socket has sent a text, or failed to, is an event.
use boar_pack.Base.{
  ℕ, String, Bool, true, false, Option, none, some, List, [], ◌∷◌, ◌++◌, number_eq, if◌then◌else◌,
  ◌≢◌, Option-cases, Bool-cases, inl, inr, refl, sym, ap, ◌∙◌, truthy_text, ◌≡◌, ◌↔◌, remove,
  member,
}
use boar_pack.Dict.{has}
use boar_pack.Sockets.Clients.{ReadyState, is_open, closed}

pub data Settled : Type 0 where
  resolved rejected : Settled

-- `waiting` are the listeners of `open`, `timeouts` the timers of a second that run, `in_flight` the
-- calls whose callback is to come, `settled` how the promises ended, and `wire` the texts that the
-- socket was given.
pub record Channel : Type 0 where
  pub ready_state : ReadyState
  pub waiting : List (ℕ × ℕ)
  pub timeouts : List ℕ
  pub in_flight : List ℕ
  pub settled : List (ℕ × Settled)
  pub wire : List String

-- A promise is settled once.
abbrev pub settle : ℕ → Settled → Channel → Channel
settle id how c = if has id c.settled then c else record c { settled = (id, how) ∷ c.settled }

abbrev pub is_ready : ReadyState → Bool
is_ready is_open = true
is_ready _ = false

-- `client.send(JSON.stringify(data), …)`.
abbrev pub put_on_wire : ℕ → String → Channel → Channel
put_on_wire id text c = record c { in_flight = id ∷ c.in_flight; wire = c.wire ++ text ∷ [] }

-- With an open socket the exception of `JSON.stringify` rejects the promise.
abbrev pub send_now : ℕ → Option String → Channel → Channel
send_now id (some text) c = put_on_wire id text c
send_now id none c = settle id rejected c

-- The event `close`, at which all listeners are taken off.
unfoldable pub closes : Channel → Channel
closes c = record c { ready_state = closed; waiting = [] }

unfoldable pub times_out : ℕ → Channel → Channel
times_out id c =
    if member id c.timeouts
    then settle id rejected (record c { timeouts = remove id c.timeouts })
    else c

-- The callback of `client.send`.
unfoldable pub confirms : ℕ → Settled → Channel → Channel
confirms id how c =
    if member id c.in_flight
    then settle id how (record c { in_flight = remove id c.in_flight })
    else c

pub data Event : Type 0 where
  sends : (id : ℕ) → (data_id : ℕ) → Event
  socket_opens socket_closes : Event
  second_passes : (id : ℕ) → Event
  calls_back : (id : ℕ) → (how : Settled) → Event

module _ (serialize : ℕ → Option String) where
  unfoldable pub send : ℕ → ℕ → Channel → Channel
  send id data_id c =
      if is_ready c.ready_state
      then send_now id (serialize data_id) c
      else record c { timeouts = id ∷ c.timeouts; waiting = c.waiting ++ (id, data_id) ∷ [] }

  -- The listeners of `open`, each of which is taken off as it is called. Where `JSON.stringify` throws
  -- in one, those behind it are not called.
  unfoldable pub flush : List (ℕ × ℕ) → Channel → Channel
  flush [] c = record c { waiting = [] }
  flush ((id, data_id) ∷ rest) c =
      let cleared = record c { timeouts = remove id c.timeouts } in
      elim (serialize data_id) [
        | some text ↦ flush rest (put_on_wire id text cleared)
        | none ↦ record cleared { waiting = rest }
      ]

  -- The event `open`, which a socket emits once.
  unfoldable pub opens : Channel → Channel
  opens c = flush c.waiting (record c { ready_state = is_open })

  unfoldable pub step : Event → Channel → Channel
  step (sends id data_id) c = send id data_id c
  step socket_opens c = opens c
  step socket_closes c = closes c
  step (second_passes id) c = times_out id c
  step (calls_back id how) c = confirms id how c

  unfoldable pub run : List Event → Channel → Channel
  run [] c = c
  run (e ∷ es) c = run es (step e c)

-- What the listener of messages does: it closes the socket with a code, hands the event on, or neither.
pub data Effect (M : Type 0) : Type 0 where
  closes_with : (code : ℕ) → Effect M
  delivers : (event : M) → Effect M
  ignores : Effect M

abbrev pub invalid_json : ℕ
invalid_json = 4000

abbrev pub error_message : ℕ
error_message = 4001

-- `parse` is `parse` of lossless-json with `toSafeNumberOrString`.
module _ {M : Type 0} (parse : String → Option M) (get_event_error : M → Option String) where
  unfoldable pub on_message : Bool → String → Effect M
  on_message ignore_invalid_json msg = elim (parse msg) [
    | none ↦ if ignore_invalid_json then ignores else closes_with invalid_json
    | some event ↦
        if truthy_text (get_event_error event) then closes_with error_message else delivers event
  ]

  refused :
      (ignore : Bool) (event : M)
      → (if ignore then ignores else closes_with invalid_json) ≢ delivers event
  refused true event e = cc e
  refused false event e = cc e

  handed :
      (msg : String) (event e : M)
      → parse msg ≡ some e
      → (if truthy_text (get_event_error e) then closes_with error_message else delivers e)
        ≡ delivers event
      → (parse msg ≡ some event) × (truthy_text (get_event_error event) ≡ false)
  handed msg event e good h = elim (Bool-cases (truthy_text (get_event_error e))) [
    | inl bad ↦ cc (rw bad at h)
    | inr fine ↦
        let same : e ≡ event = cc (rw fine at h) in
        (good ∙ ap some same, ap (λ x. truthy_text (get_event_error x)) (sym same) ∙ fine)
  ]

  -- An event is handed on exactly if the message holds it and it is no error; otherwise the socket is
  -- closed, unless the message holds none and that is to be ignored.
  pub on_message_iff :
      (ignore_invalid_json : Bool) (msg : String) (event : M)
      → on_message ignore_invalid_json msg ≡ delivers event
        ↔ (parse msg ≡ some event) × (truthy_text (get_event_error event) ≡ false)
  unfolding on_message
  on_message_iff ignore_invalid_json msg event = (
    λ h. elim (Option-cases (parse msg)) [
      | inl bad ↦ absurd (refused ignore_invalid_json event (rw (bad, on_message) at h))
      | inr (e, good) ↦ handed msg event e good (rw (good, on_message) at h)
    ],
    λ both. rw (both.0, on_message) (rw both.1 refl),
  )
