-- ===== src/Monitoring/Outage.antt =====
-- Rounds of one provider, one after another: the pauses between alerts, and the log of messages.
use boar_pack.Base.{
  ℕ, zero, suc, ◌+◌, ◌*◌, ◌≤◌, ◌<◌, ◌≡◌, refl, Bool, true, false, is_some, Option, none, some, List,
  [], ◌∷◌, ◌++◌, map, All, if◌then◌else◌, get_or, text_eq, arith, Bool-cases, inl, inr,
}
use boar_pack.Dict.{get}
use boar_pack.Monitoring.Notify.{
  Provider, Entry, Journal, exponential_backoff, Message, no_quotes, active_again, backed_off,
  notify_provider,
}
use boar_pack.Monitoring.Backoff.{
  next_entry, alerts, problematic, get-notify_provider_self, round_messages, sent-notify_provider,
}

-- The time of a round, and the time of the latest quote that it sees.
abbrev pub Round : Type 0
Round = ℕ × Option ℕ

abbrev stamp : ℕ → List Message → List (ℕ × Message)
stamp now [] = []
stamp now (m ∷ ms) = (now, m) ∷ stamp now ms

-- What is sent about the provider in a series of rounds, with the times.
unfoldable pub rounds : Provider → List Round → Journal → List (ℕ × Message)
rounds p [] j = []
rounds p ((now, latest) ∷ rs) j =
    let (j', sent) = notify_provider now latest p j in stamp now sent ++ rounds p rs j'

abbrev pub times : List (ℕ × Message) → List ℕ
times = map (λ m. m.0)

-- At most as many times as there are pauses, each at least its pause after the one before it.
abbrev pub Paced : List ℕ → ℕ → List ℕ → Type 0
Paced pauses before [] = Unit
Paced [] before (t ∷ ts) = ⊥
Paced (b ∷ bs) before (t ∷ ts) = (before + 1000 * b ≤ t) × Paced bs t ts

abbrev pub PacedFromFirst : List ℕ → Type 0
PacedFromFirst [] = Unit
PacedFromFirst (t ∷ ts) = Paced exponential_backoff t ts

abbrev pub drop : ℕ → List ℕ → List ℕ
drop zero xs = xs
drop (suc n) [] = []
drop (suc n) (x ∷ xs) = drop n xs

-- The times of the alerts, from the entry that the rounds begin with.
alert_times : Option Entry → List ℕ → List ℕ
alert_times e [] = []
alert_times e (t ∷ ts) =
    let later = alert_times (next_entry t true e) ts in if alerts t e then t ∷ later else later

drop-exponential_backoff :
    (a : ℕ)
    → a < 4
    → drop a exponential_backoff ≡ get_or exponential_backoff a 0 ∷ drop (a + 1) exponential_backoff
drop-exponential_backoff zero h = refl
drop-exponential_backoff (suc zero) h = refl
drop-exponential_backoff (suc (suc zero)) h = refl
drop-exponential_backoff (suc (suc (suc zero))) h = refl
drop-exponential_backoff (suc (suc (suc (suc a)))) h = absurd (omega arith)

abbrev entry : ℕ → ℕ → Entry
entry a last = record { attempts = a; last_notification = last }

not-backed_off :
    (a last t : ℕ)
    → backed_off t (entry a last) ≡ false
    → (a < 4) × (last + 1000 * get_or exponential_backoff a 0 ≤ t)
not-backed_off zero last t h = ground arith
not-backed_off (suc zero) last t h = ground arith
not-backed_off (suc (suc zero)) last t h = ground arith
not-backed_off (suc (suc (suc zero))) last t h = ground arith
not-backed_off (suc (suc (suc (suc a)))) last t h = absurd (ground arith)

alert_times-Paced :
    (a last : ℕ) (ts : List ℕ)
    → Paced (drop a exponential_backoff) last (alert_times (some (entry a last)) ts)
unfolding alert_times next_entry
alert_times-Paced a last [] = tt
alert_times-Paced a last (t ∷ ts) = elim (Bool-cases (backed_off t (entry a last))) [
  | inl held ↦ rw held (alert_times-Paced a last ts)
  | inr free ↦
      let (few, late) = not-backed_off a last t free in
      rw (free, drop-exponential_backoff a few) (late, alert_times-Paced (a + 1) t ts)
]

alert_times-PacedFromFirst : (ts : List ℕ) → PacedFromFirst (alert_times none ts)
unfolding alert_times next_entry
alert_times-PacedFromFirst [] = tt
alert_times-PacedFromFirst (t ∷ ts) = alert_times-Paced 0 t ts

times-rounds :
    (p : Provider) (rs : List Round) (j : Journal)
    → All (λ r. problematic r.0 r.1 p ≡ true) rs
    → times (rounds p rs j) ≡ alert_times (get p.id j) (map (λ r. r.0) rs)
unfolding rounds alert_times
times-rounds p [] j h = refl
times-rounds p ((now, latest) ∷ rs) j (bad, h) =
    rw (sent-notify_provider now latest p j, bad)
      (ground (
        arith,
        get-notify_provider_self now latest p j,
        times-rounds p rs (notify_provider now latest p j).0 h,
      ))

-- During an outage, a series of rounds that all find the provider problematic, at most five alerts
-- are sent, with pauses of at least 299, 599, 1799 and 3599 seconds between them, if the journal
-- has no entry of the provider at its beginning.
pub rounds-PacedFromFirst :
    (p : Provider) (rs : List Round) (j : Journal)
    → get p.id j ≡ none
    → All (λ r. problematic r.0 r.1 p ≡ true) rs
    → PacedFromFirst (times (rounds p rs j))
rounds-PacedFromFirst p rs j fresh h =
    rw (times-rounds p rs j h, fresh) (alert_times-PacedFromFirst (map (λ r. r.0) rs))

-- A log in which a recovery is reported only after an alert that no recovery has followed yet; the
-- test says whether such an alert came before.
abbrev pub Legal : Bool → List (ℕ × Message) → Type 0
Legal alerted [] = Unit
Legal alerted ((t, no_quotes _ _) ∷ ms) = Legal true ms
Legal alerted ((t, active_again _) ∷ ms) = (alerted ≡ true) × Legal false ms

Legal-round_messages :
    (now : ℕ) (latest : Option ℕ) (p : Provider) (bad : Bool) (e : Option Entry)
    (rest : List (ℕ × Message))
    → Legal (is_some (next_entry now bad e)) rest
    → Legal (is_some e) (stamp now (round_messages now latest p bad e) ++ rest)
unfolding next_entry
Legal-round_messages now latest p false none rest h = h
Legal-round_messages now latest p false (some e) rest h = (refl, h)
Legal-round_messages now latest p true none rest h = h
Legal-round_messages now latest p true (some e) rest h = elim (Bool-cases (backed_off now e)) [
  | inl held ↦ rw held (rw held at h)
  | inr free ↦ rw free (rw free at h)
]

-- In any series of rounds a recovery is reported only after an alert, and once for it.
pub rounds-Legal :
    (p : Provider) (rs : List Round) (j : Journal) → Legal (is_some (get p.id j)) (rounds p rs j)
unfolding rounds
rounds-Legal p [] j = tt
rounds-Legal p ((now, latest) ∷ rs) j =
    let (j', sent) = notify_provider now latest p j in
    rw (sent-notify_provider now latest p j) (
      Legal-round_messages now latest p (problematic now latest p) (get p.id j) (rounds p rs j')
        (rw (get-notify_provider_self now latest p j) at (rounds-Legal p rs j')))
