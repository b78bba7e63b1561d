-- ===== src/Sockets/Unsettled.antt =====
-- How the promises of `send` end.
use boar_pack.Base.{
  ℕ, String, ◌≡◌, refl, sym, ap, ◌∙◌, Bool, true, ◌||◌, Option, List, [], ◌∷◌, number_eq, ◌==◌,
  remove, member, is_some, arith, Bool-cases, inl, inr, member-remove, ==_refl, Option-cases,
}
use boar_pack.Dict.{has}
use boar_pack.Sockets.Sending.{
  Settled, rejected, Channel, settle, is_ready, put_on_wire, send, flush, opens, closes, times_out,
  confirms, Event, sends, socket_opens, socket_closes, second_passes, calls_back, step, run,
}

-- A call's promise is settled, or its timer runs, or its callback is to come.
abbrev pub is_tended : ℕ → Channel → Bool
is_tended id c = has id c.settled || member id c.timeouts || member id c.in_flight

or_true : (a b : Bool) → b ≡ true → (a || b) ≡ true
or_true a b h = ground (arith, h)

has_same : (id k : ℕ) (m : List (ℕ × Settled)) → has id m ≡ true → (id == k) ≡ true → has k m ≡ true
has_same id k m there same = sym (ap (λ i. has i m) ((number_eq.decides id k).0 same)) ∙ there

pub is_tended-settle :
    (k id : ℕ) (how : Settled) (c : Channel)
    → is_tended k (settle id how c) ≡ (id == k || is_tended k c)
unfolding has
is_tended-settle k id how c = elim (Bool-cases (has id c.settled)) [
  | inl there ↦ rw there (elim (Bool-cases (id == k)) [
    | inl same ↦ rw (same, has_same id k c.settled there same) refl
    | inr other ↦ rw other refl
  ])
  | inr new ↦
      rw new (elim (Bool-cases (id == k)) [ inl same ↦ rw same refl | inr other ↦ rw other refl ])
]

has-settle : (id : ℕ) (how : Settled) (c : Channel) → has id (settle id how c).settled ≡ true
unfolding has
has-settle id how c = elim (Bool-cases (has id c.settled)) [
  | inl there ↦ rw there there
  | inr new ↦ rw new (ground (arith, ==_refl id))
]

-- What is left once the timer has fired, and once the callback has come.
timed :
    (id : ℕ) (c : Channel)
    → is_tended id c ≡ true
    → (has id (times_out id c).settled || member id (times_out id c).in_flight) ≡ true
unfolding times_out
timed id c h = elim (Bool-cases (member id c.timeouts)) [
  | inl due ↦
      rw due (ground (arith, has-settle id rejected (record c { timeouts = remove id c.timeouts })))
  | inr none_due ↦ rw none_due (ground (arith, h, none_due))
]

called_back :
    (id : ℕ) (how : Settled) (c : Channel)
    → (has id c.settled || member id c.in_flight) ≡ true
    → has id (confirms id how c).settled ≡ true
unfolding confirms
called_back id how c h = elim (Bool-cases (member id c.in_flight)) [
  | inl due ↦ rw due (has-settle id how (record c { in_flight = remove id c.in_flight }))
  | inr none_due ↦ rw none_due (ground (arith, h, none_due))
]

module _ (serialize : ℕ → Option String) (total : (d : ℕ) → is_some (serialize d) ≡ true) where
  is_tended-flush :
      (k : ℕ) (waiting : List (ℕ × ℕ)) (c : Channel)
      → is_tended k c ≡ true
      → is_tended k (flush serialize waiting c) ≡ true
  unfolding flush
  is_tended-flush k [] c h = h
  is_tended-flush k ((id, d) ∷ rest) c h = elim (Option-cases (serialize d)) [
    | inl bad ↦ ground (arith, bad, total d)
    | inr (text, good) ↦
        rw (good, flush)
          (is_tended-flush k rest
            (put_on_wire id text (record c { timeouts = remove id c.timeouts }))
            (ground (arith, h, member-remove id k c.timeouts)))
  ]

  is_tended-step :
      (k : ℕ) (e : Event) (c : Channel)
      → is_tended k c ≡ true
      → is_tended k (step serialize e c) ≡ true
  unfolding step send opens closes times_out confirms
  is_tended-step k (sends id d) c h = elim (Bool-cases (is_ready c.ready_state)) [
    | inr waits ↦ rw waits (ground (arith, h))
    | inl ready ↦ rw ready (elim (Option-cases (serialize d)) [
      | inl bad ↦ ground (arith, bad, total d)
      | inr (text, good) ↦ rw good (ground (arith, h))
    ])
  ]
  is_tended-step k socket_opens c h = is_tended-flush k c.waiting _ h
  is_tended-step k socket_closes c h = h
  is_tended-step k (second_passes id) c h = elim (Bool-cases (member id c.timeouts)) [
    | inr none_due ↦ rw (none_due) h
    | inl due ↦ rw due (
        is_tended-settle k id rejected (record c { timeouts = remove id c.timeouts })
        ∙ ground (arith, h, member-remove id k c.timeouts))
  ]
  is_tended-step k (calls_back id how) c h = elim (Bool-cases (member id c.in_flight)) [
    | inr none_due ↦ rw (none_due) h
    | inl due ↦ rw due (
        is_tended-settle k id how (record c { in_flight = remove id c.in_flight })
        ∙ ground (arith, h, member-remove id k c.in_flight))
  ]

  is_tended-run :
      (k : ℕ) (es : List Event) (c : Channel)
      → is_tended k c ≡ true
      → is_tended k (run serialize es c) ≡ true
  unfolding run
  is_tended-run k [] c h = h
  is_tended-run k (e ∷ es) c h = is_tended-run k es (step serialize e c) (is_tended-step k e c h)

  is_tended-send : (id d : ℕ) (c : Channel) → is_tended id (send serialize id d c) ≡ true
  unfolding send
  is_tended-send id d c = elim (Bool-cases (is_ready c.ready_state)) [
    | inr waits ↦ rw waits (ground (arith, ==_refl id))
    | inl ready ↦ rw ready (elim (Option-cases (serialize d)) [
      | inl bad ↦ ground (arith, bad, total d)
      | inr (text, good) ↦ rw good (ground (arith, ==_refl id))
    ])
  ]

  -- The promise of a call, whatever came before it and comes after it, is settled once its timer has
  -- had its second and its callback has come, if every value can be written as JSON.
  pub run-settles :
      (id d : ℕ) (how : Settled) (after : List Event) (c : Channel)
      → has id
          (run serialize
            (second_passes id ∷ calls_back id how ∷ [])
            (run serialize after (send serialize id d c))).settled
        ≡ true
  unfolding run step
  run-settles id d how after c =
      let due = run serialize after (send serialize id d c) in
      called_back id how (times_out id due)
        (timed id due (is_tended-run id after (send serialize id d c) (is_tended-send id d c)))
