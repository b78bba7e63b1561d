-- ===== src/Sockets/Liveness.antt =====
-- Which sockets ws-auth.service.ts keeps as clients, and which it terminates, over a history.
use boar_pack.Base.{
  ℕ, ◌≡◌, refl, Bool, true, false, ◌||◌, List, [], ◌∷◌, ◌++◌, number_eq, member, add, member-add,
  member-remove, if◌then◌else◌, ◌==◌, arith, Bool-cases, inl, inr, ==_refl, add-known, Distinct,
  add-Distinct, remove-Distinct,
}
use boar_pack.Sockets.Server.{
  Service, Outcome, failed, refused, passed_error, passed_on, taken, Event, connects, authenticates,
  disconnects, answers, broadcasts, checks, handle_connection, add_client, authenticated,
  handle_disconnect, handle_pong, check_clients, step, after,
}
use boar_pack.Sockets.Rounds.{
  pings, terminates, marked-check_each, client-check_each, terminates-check_each, pings-check_each,
  check_each-Distinct,
}

-- The socket answers a ping in the event; Passport finds a user for the socket in it.
abbrev pub is_answer : ℕ → Event → Bool
is_answer s (answers t) = t == s
is_answer s _ = false

abbrev pub is_taken : ℕ → Event → Bool
is_taken s (authenticates t (taken user)) = t == s
is_taken s _ = false

-- Authentication makes the socket a client if there is a user, and marks nothing.
authenticated-sets :
    (s : ℕ) (outcome : Outcome) (st : Service)
    → ((authenticated s outcome st).0.clients
        ≡ (if is_taken s (authenticates s outcome) then add s st.clients else st.clients))
      × ((authenticated s outcome st).0.clients_to_terminate ≡ st.clients_to_terminate)
unfolding authenticated add_client
authenticated-sets s failed st = (refl, refl)
authenticated-sets s refused st = (refl, refl)
authenticated-sets s passed_error st = (refl, refl)
authenticated-sets s passed_on st = (refl, refl)
authenticated-sets s (taken user) st = elim (Bool-cases (member s st.clients)) [
  | inl h ↦ rw (h, ==_refl s) (ground (arith, add-known s st.clients h), refl)
  | inr h ↦ rw (h, ==_refl s) (refl, refl)
]

client-authenticated :
    (s t : ℕ) (outcome : Outcome) (st : Service)
    → member s (authenticated t outcome st).0.clients
      ≡ (is_taken s (authenticates t outcome) || member s st.clients)
client-authenticated s t failed st = rw ((authenticated-sets t failed st).0) refl
client-authenticated s t refused st = rw ((authenticated-sets t refused st).0) refl
client-authenticated s t passed_error st = rw ((authenticated-sets t passed_error st).0) refl
client-authenticated s t passed_on st = rw ((authenticated-sets t passed_on st).0) refl
client-authenticated s t (taken user) st =
    rw ((authenticated-sets t (taken user) st).0, ==_refl t) (member-add t s st.clients)

authenticated-Distinct :
    (s : ℕ) (outcome : Outcome) (st : Service)
    → Distinct st.clients
    → Distinct (authenticated s outcome st).0.clients
authenticated-Distinct s failed st d = rw ((authenticated-sets s failed st).0) d
authenticated-Distinct s refused st d = rw ((authenticated-sets s refused st).0) d
authenticated-Distinct s passed_error st d = rw ((authenticated-sets s passed_error st).0) d
authenticated-Distinct s passed_on st d = rw ((authenticated-sets s passed_on st).0) d
authenticated-Distinct s (taken user) st d =
    rw ((authenticated-sets s (taken user) st).0, ==_refl s) (add-Distinct s st.clients d)

-- The clients are all different.
after-Distinct : (es : List Event) → Distinct (after es).clients
unfolding after step handle_connection handle_disconnect handle_pong check_clients
after-Distinct [] = tt
after-Distinct (connects s ∷ es) = after-Distinct es
after-Distinct (authenticates s outcome ∷ es) =
    authenticated-Distinct s outcome (after es) (after-Distinct es)
after-Distinct (disconnects s ∷ es) = remove-Distinct s (after es).clients (after-Distinct es)
after-Distinct (answers s ∷ es) = after-Distinct es
after-Distinct (broadcasts text ∷ es) = after-Distinct es
after-Distinct (checks ∷ es) = check_each-Distinct (after es).clients (after es) (after-Distinct es)

-- Socket `s` was pinged in a check of the history, and has not answered since.
pub data Unanswered (s : ℕ) : List Event → Type 0 where
  now : {es : List Event} → pings s (check_clients (after es)).1 ≡ true → Unanswered s (checks ∷ es)
  later :
      {e : Event} {es : List Event}
      → is_answer s e ≡ false
      → Unanswered s es
      → Unanswered s (e ∷ es)

marked-Unanswered :
    (s : ℕ) (es : List Event) → member s (after es).clients_to_terminate ≡ true → Unanswered s es
unfolding after step handle_connection handle_disconnect handle_pong check_clients
marked-Unanswered s [] h = ground (arith, h)
marked-Unanswered s (connects t ∷ es) h = later refl (marked-Unanswered s es h)
marked-Unanswered s (authenticates t outcome ∷ es) h =
    later refl
      (marked-Unanswered s es (ground (arith, h, (authenticated-sets t outcome (after es)).1)))
marked-Unanswered s (disconnects t ∷ es) h = later refl (marked-Unanswered s es h)
marked-Unanswered s (answers t ∷ es) h =
    later (ground (arith, h, member-remove t s (after es).clients_to_terminate)) (
      marked-Unanswered s es (ground (arith, h, member-remove t s (after es).clients_to_terminate)))
marked-Unanswered s (broadcasts text ∷ es) h = later refl (marked-Unanswered s es h)
marked-Unanswered s (checks ∷ es) h = elim (Bool-cases (member s (after es).clients_to_terminate)) [
  | inl before ↦ later refl (marked-Unanswered s es before)
  | inr fresh ↦ now (
      ground (
        arith,
        h,
        fresh,
        marked-check_each s (after es).clients (after es),
        pings-check_each s (after es).clients (after es) (after-Distinct es),
      ))
]

-- A check terminates a socket only if it was pinged in an earlier check of the history and has not
-- answered since, and only if it is a client.
pub terminates-Unanswered :
    (s : ℕ) (es : List Event)
    → terminates s (check_clients (after es)).1 ≡ true
    → (member s (after es).clients ≡ true) × Unanswered s es
unfolding check_clients
terminates-Unanswered s es h =
    let known = terminates-check_each s (after es).clients (after es) (after-Distinct es) in
    (ground (arith, h, known), marked-Unanswered s es (ground (arith, h, known)))

-- No event of the list is an answer of the socket.
abbrev pub IsSilent : ℕ → List Event → Type 0
IsSilent s [] = Unit
IsSilent s (e ∷ es) = (is_answer s e ≡ false) × IsSilent s es

marks_last :
    (s : ℕ) (mid es : List Event)
    → IsSilent s mid
    → member s (after es).clients_to_terminate ≡ true
    → member s (after (mid ++ es)).clients_to_terminate ≡ true
unfolding after step handle_connection handle_disconnect handle_pong check_clients
marks_last s [] es quiet h = h
marks_last s (connects t ∷ mid) es (q, quiet) h = marks_last s mid es quiet h
marks_last s (authenticates t outcome ∷ mid) es (q, quiet) h =
    ground
      (arith, marks_last s mid es quiet h, (authenticated-sets t outcome (after (mid ++ es))).1)
marks_last s (disconnects t ∷ mid) es (q, quiet) h = marks_last s mid es quiet h
marks_last s (answers t ∷ mid) es (q, quiet) h = ground (
  arith,
  q,
  marks_last s mid es quiet h,
  member-remove t s (after (mid ++ es)).clients_to_terminate,
)
marks_last s (broadcasts text ∷ mid) es (q, quiet) h = marks_last s mid es quiet h
marks_last s (checks ∷ mid) es (q, quiet) h = ground (
  arith,
  marks_last s mid es quiet h,
  marked-check_each s (after (mid ++ es)).clients (after (mid ++ es)),
)

-- A client that does not answer between two checks, whatever else happens between them, is no client
-- after the second, also if it is authenticated anew between them.
pub silent_dropped :
    (s : ℕ) (mid es : List Event)
    → member s (after es).clients ≡ true
    → IsSilent s mid
    → member s (after (checks ∷ mid ++ checks ∷ es)).clients ≡ false
unfolding after step check_clients
silent_dropped s mid es h quiet =
    let until = mid ++ checks ∷ es in
    let still =
      marks_last s mid (checks ∷ es) quiet
        (ground (arith, h, marked-check_each s (after es).clients (after es))) in
    ground
      (arith, still, client-check_each s (after until).clients (after until) (after-Distinct until))

-- Some event of the list is one in which Passport finds a user for the socket.
abbrev pub was_taken : ℕ → List Event → Bool
was_taken s [] = false
was_taken s (e ∷ es) = is_taken s e || was_taken s es

-- A client is a socket for which Passport found a user.
pub client-taken :
    (s : ℕ) (es : List Event) → member s (after es).clients ≡ true → was_taken s es ≡ true
unfolding after step handle_connection handle_disconnect handle_pong check_clients
client-taken s [] h = ground (arith, h)
client-taken s (connects t ∷ es) h = client-taken s es h
client-taken s (authenticates t outcome ∷ es) h =
    elim (Bool-cases (is_taken s (authenticates t outcome))) [
      | inl this ↦ ground (arith, this)
      | inr other ↦ ground (
        arith,
        other,
        client-taken s es (ground (arith, h, other, client-authenticated s t outcome (after es))),
      )
    ]
client-taken s (disconnects t ∷ es) h =
    client-taken s es (ground (arith, h, member-remove t s (after es).clients))
client-taken s (answers t ∷ es) h = client-taken s es h
client-taken s (broadcasts text ∷ es) h = client-taken s es h
client-taken s (checks ∷ es) h =
    client-taken s es
      (ground (arith, h, client-check_each s (after es).clients (after es) (after-Distinct es)))
