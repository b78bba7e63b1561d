-- ===== src/Sockets/Lost.antt =====
-- Calls of `send` that go wrong: one that is never settled, and one that is rejected and goes out.
use boar_pack.Base.{
  ℕ, String, ◌≡◌, refl, ap, Bool, true, false, ◌||◌, Option, none, some, List, [], ◌∷◌, ◌++◌,
  number_eq, ◌==◌, remove, member, arith, Bool-cases, inl, inr, member-remove, ==_refl, any,
  Option-cases,
}
use boar_pack.Dict.{get, has}
use boar_pack.Sockets.Clients.{is_open}
use boar_pack.Sockets.Sending.{
  Settled, rejected, Channel, settle, is_ready, put_on_wire, send, flush, opens, closes, times_out,
  confirms, Event, sends, socket_opens, socket_closes, second_passes, calls_back, step, run,
}
use boar_pack.Sockets.Unsettled.{is_tended, is_tended-settle}

-- A call that the channel knows of.
abbrev pub is_known : ℕ → Channel → Bool
is_known id c = is_tended id c || has id c.waiting

abbrev pub sends_it : ℕ → Event → Bool
sends_it k (sends id d) = id == k
sends_it k e = false

member_other :
    (id k : ℕ) (xs : List ℕ) → member id xs ≡ true → member k xs ≡ false → (id == k) ≡ false
member_other id k xs there missing = elim (Bool-cases (id == k)) [
  | inl same ↦
      ground (arith, there, missing, ap (λ i. member i xs) ((number_eq.decides id k).0 same))
  | inr other ↦ other
]

waiting-settle : (id : ℕ) (how : Settled) (c : Channel) → (settle id how c).waiting ≡ c.waiting
waiting-settle id how c = elim (Bool-cases (has id c.settled)) [
  | inl there ↦ rw there refl
  | inr new ↦ rw new refl
]

is_known-settle :
    (k id : ℕ) (how : Settled) (c : Channel)
    → (id == k) ≡ false
    → is_known k c ≡ false
    → is_known k (settle id how c) ≡ false
is_known-settle k id how c other h =
    ground (arith, is_tended-settle k id how c, other, h, ap (has k) (waiting-settle id how c))

is_known-closes : (k : ℕ) (c : Channel) → is_known k c ≡ false → is_known k (closes c) ≡ false
unfolding closes has
is_known-closes k c h = ground (arith, h)

module _ (serialize : ℕ → Option String) where
  is_known-flush :
      (k : ℕ) (waiting : List (ℕ × ℕ)) (c : Channel)
      → (is_tended k c || has k waiting) ≡ false
      → is_known k (flush serialize waiting c) ≡ false
  unfolding flush has
  is_known-flush k [] c h = h
  is_known-flush k ((id, d) ∷ rest) c h = elim (Option-cases (serialize d)) [
    | inl bad ↦ rw (bad, flush) (ground (arith, h, member-remove id k c.timeouts))
    | inr (text, good) ↦
        rw (good, flush)
          (is_known-flush k rest
            (put_on_wire id text (record c { timeouts = remove id c.timeouts }))
            (ground (arith, h, member-remove id k c.timeouts)))
  ]

  has_added : (k id d : ℕ) (m : List (ℕ × ℕ)) → has k (m ++ (id, d) ∷ []) ≡ (has k m || id == k)
  unfolding has
  has_added k id d [] = ground arith
  has_added k id d ((j, x) ∷ m) = ground (arith, has_added k id d m)

  is_known-step :
      (k : ℕ) (e : Event) (c : Channel)
      → sends_it k e ≡ false
      → is_known k c ≡ false
      → is_known k (step serialize e c) ≡ false
  unfolding step send opens closes times_out confirms
  is_known-step k (sends id d) c o h = elim (Bool-cases (is_ready c.ready_state)) [
    | inr waits ↦ rw waits (ground (arith, h, o, has_added k id d c.waiting))
    | inl ready ↦ rw ready (elim (Option-cases (serialize d)) [
      | inl bad ↦ rw bad (is_known-settle k id rejected c o h)
      | inr (text, good) ↦ rw good (ground (arith, h, o))
    ])
  ]
  is_known-step k socket_opens c o h =
      is_known-flush k c.waiting (record c { ready_state = is_open }) h
  is_known-step k socket_closes c o h = is_known-closes k c h
  is_known-step k (second_passes id) c o h = elim (Bool-cases (member id c.timeouts)) [
    | inr none_due ↦ rw none_due h
    | inl due ↦ rw due (
        is_known-settle k id rejected (record c { timeouts = remove id c.timeouts })
          (member_other id k c.timeouts due (ground (arith, h)))
          (ground (arith, h, member-remove id k c.timeouts)))
  ]
  is_known-step k (calls_back id how) c o h = elim (Bool-cases (member id c.in_flight)) [
    | inr none_due ↦ rw none_due h
    | inl due ↦ rw due (
        is_known-settle k id how (record c { in_flight = remove id c.in_flight })
          (member_other id k c.in_flight due (ground (arith, h)))
          (ground (arith, h, member-remove id k c.in_flight)))
  ]

  is_known-run :
      (k : ℕ) (es : List Event) (c : Channel)
      → any (sends_it k) es ≡ false
      → is_known k c ≡ false
      → is_known k (run serialize es c) ≡ false
  unfolding run
  is_known-run k [] c o h = h
  is_known-run k (e ∷ es) c o h =
      is_known-run k es (step serialize e c) (ground (arith, o))
        (is_known-step k e c (ground (arith, o)) h)

  -- A call on a socket that is not open yet, of a value that cannot be written as JSON: once the socket
  -- opens, with no other call waiting, its timer is cleared, and whatever happens then its promise is
  -- never settled.
  pub unserializable_never_settles :
      (id d : ℕ) (es : List Event) (c : Channel)
      → serialize d ≡ none
      → is_ready c.ready_state ≡ false
      → c.waiting ≡ []
      → is_known id c ≡ false
      → any (sends_it id) es ≡ false
      → has id (run serialize es (opens serialize (send serialize id d c))).settled ≡ false
  unfolding opens send flush has
  unserializable_never_settles id d es c bad waits empty new others =
      let opened = opens serialize (send serialize id d c) in
      let unknown : is_known id opened ≡ false =
        rw (waits, opens)
          (rw empty
            (rw (bad, flush) (ground (arith, new, ==_refl id, member-remove id id c.timeouts)))) in
      let h = is_known-run id es opened others unknown in ground (arith, h)

  -- A call on a socket that does not open within its second is rejected, and its text goes out all the
  -- same once the socket opens, with no other call waiting.
  pub send_outlives_timeout :
      (id d : ℕ) (text : String) (c : Channel)
      → serialize d ≡ some text
      → is_ready c.ready_state ≡ false
      → c.waiting ≡ []
      → has id c.settled ≡ false
      → let late = opens serialize (times_out id (send serialize id d c)) in
        (get id late.settled ≡ some rejected) × (late.wire ≡ c.wire ++ text ∷ [])
  unfolding opens send flush times_out get
  send_outlives_timeout id d text c good waits empty new =
      rw (waits, opens)
        (rw empty (
          rw (==_refl id, times_out)
            (rw (new, settle) (rw (good, flush) (ground (arith, ==_refl id), refl)))))
