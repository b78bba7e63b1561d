-- ===== src/Sockets/Rounds.antt =====
-- What one round of the five-second check of ws-auth.service.ts does to each socket.
use boar_pack.Base.{
  ℕ, ◌≡◌, refl, Bool, false, not, ◌&&◌, ◌||◌, List, [], ◌∷◌, ◌++◌, number_eq, member, member-add,
  member-remove, ◌==◌, arith, Bool-cases, inl, inr, same_number_iff, Distinct, remove-Distinct,
}
use boar_pack.Sockets.Server.{
  Service, Effect, send, close, emit_authenticated, ping, terminate, check_client, check_each,
}

-- Whether a socket is pinged or terminated among the effects.
abbrev pub pings : ℕ → List Effect → Bool
pings s [] = false
pings s (ping t ∷ effects) = t == s || pings s effects
pings s (_ ∷ effects) = pings s effects

abbrev pub terminates : ℕ → List Effect → Bool
terminates s [] = false
terminates s (terminate t ∷ effects) = t == s || terminates s effects
terminates s (_ ∷ effects) = terminates s effects

terminates-append :
    (s : ℕ) (xs ys : List Effect) → terminates s (xs ++ ys) ≡ (terminates s xs || terminates s ys)
terminates-append s [] ys = refl
terminates-append s (send t text ∷ xs) ys = terminates-append s xs ys
terminates-append s (close t ∷ xs) ys = terminates-append s xs ys
terminates-append s (emit_authenticated t ∷ xs) ys = terminates-append s xs ys
terminates-append s (ping t ∷ xs) ys = terminates-append s xs ys
terminates-append s (terminate t ∷ xs) ys = ground (arith, terminates-append s xs ys)

pings-append : (s : ℕ) (xs ys : List Effect) → pings s (xs ++ ys) ≡ (pings s xs || pings s ys)
pings-append s [] ys = refl
pings-append s (send t text ∷ xs) ys = pings-append s xs ys
pings-append s (close t ∷ xs) ys = pings-append s xs ys
pings-append s (emit_authenticated t ∷ xs) ys = pings-append s xs ys
pings-append s (ping t ∷ xs) ys = ground (arith, pings-append s xs ys)
pings-append s (terminate t ∷ xs) ys = pings-append s xs ys

-- A client that is checked.
module _ (s t : ℕ) (st : Service) where
  marked-check_client :
      member s (check_client t st).0.clients_to_terminate
      ≡ (member s st.clients_to_terminate || t == s)
  unfolding check_client
  marked-check_client = elim (Bool-cases (member t st.clients_to_terminate)) [
    | inl h ↦ rw h (ground (arith, h, same_number_iff t s))
    | inr h ↦ rw h (ground (arith, h, same_number_iff t s, member-add t s st.clients_to_terminate))
  ]

  client-check_client :
      member s (check_client t st).0.clients
      ≡ (member s st.clients && not (t == s && member s st.clients_to_terminate))
  unfolding check_client
  client-check_client = elim (Bool-cases (member t st.clients_to_terminate)) [
    | inl h ↦ rw h (ground (arith, h, same_number_iff t s, member-remove t s st.clients))
    | inr h ↦ rw h (ground (arith, h, same_number_iff t s))
  ]

  terminates-check_client :
      terminates s (check_client t st).1 ≡ (t == s && member s st.clients_to_terminate)
  unfolding check_client
  terminates-check_client = elim (Bool-cases (member t st.clients_to_terminate)) [
    | inl h ↦ rw h (ground (arith, h, same_number_iff t s))
    | inr h ↦ rw h (ground (arith, h, same_number_iff t s))
  ]

  pings-check_client :
      pings s (check_client t st).1 ≡ (t == s && not (member s st.clients_to_terminate))
  unfolding check_client
  pings-check_client = elim (Bool-cases (member t st.clients_to_terminate)) [
    | inl h ↦ rw h (ground (arith, h, same_number_iff t s))
    | inr h ↦ rw h (ground (arith, h, same_number_iff t s))
  ]

-- A round over clients that are all different.
module _ (s : ℕ) where
  pub marked-check_each :
      (ss : List ℕ) (st : Service)
      → member s (check_each ss st).0.clients_to_terminate
        ≡ (member s st.clients_to_terminate || member s ss)
  unfolding check_each
  marked-check_each [] st = ground arith
  marked-check_each (t ∷ ss) st =
      ground (arith, marked-check_client s t st, marked-check_each ss (check_client t st).0)

  pub client-check_each :
      (ss : List ℕ) (st : Service)
      → Distinct ss
      → member s (check_each ss st).0.clients
        ≡ (member s st.clients && not (member s ss && member s st.clients_to_terminate))
  unfolding check_each
  client-check_each [] st d = ground arith
  client-check_each (t ∷ ss) st (n, d) = ground (
    arith,
    n,
    same_number_iff t s,
    marked-check_client s t st,
    client-check_client s t st,
    client-check_each ss (check_client t st).0 d,
  )

  pub terminates-check_each :
      (ss : List ℕ) (st : Service)
      → Distinct ss
      → terminates s (check_each ss st).1 ≡ (member s ss && member s st.clients_to_terminate)
  unfolding check_each
  terminates-check_each [] st d = refl
  terminates-check_each (t ∷ ss) st (n, d) = ground (
    arith,
    n,
    same_number_iff t s,
    marked-check_client s t st,
    terminates-check_client s t st,
    terminates-append s (check_client t st).1 (check_each ss (check_client t st).0).1,
    terminates-check_each ss (check_client t st).0 d,
  )

  pub pings-check_each :
      (ss : List ℕ) (st : Service)
      → Distinct ss
      → pings s (check_each ss st).1 ≡ (member s ss && not (member s st.clients_to_terminate))
  unfolding check_each
  pings-check_each [] st d = refl
  pings-check_each (t ∷ ss) st (n, d) = ground (
    arith,
    n,
    same_number_iff t s,
    marked-check_client s t st,
    pings-check_client s t st,
    pings-append s (check_client t st).1 (check_each ss (check_client t st).0).1,
    pings-check_each ss (check_client t st).0 d,
  )

check_client-Distinct :
    (t : ℕ) (st : Service) → Distinct st.clients → Distinct (check_client t st).0.clients
unfolding check_client
check_client-Distinct t st d = elim (Bool-cases (member t st.clients_to_terminate)) [
  | inl h ↦ rw h (remove-Distinct t st.clients d)
  | inr h ↦ rw h d
]

pub check_each-Distinct :
    (ss : List ℕ) (st : Service) → Distinct st.clients → Distinct (check_each ss st).0.clients
unfolding check_each
check_each-Distinct [] st d = d
check_each-Distinct (t ∷ ss) st d =
    check_each-Distinct ss (check_client t st).0 (check_client-Distinct t st d)
