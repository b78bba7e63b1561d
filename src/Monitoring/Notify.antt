-- ===== src/Monitoring/Notify.antt =====
-- `sendNotifications`: alerts with a growing pause between them, and a message on recovery. Times
-- are in milliseconds. A quote dated after `now` counts as one of this moment: the source's negative
-- age passes no test that zero fails, since a threshold is a natural number of seconds.
use boar_pack.Base.{
  ℕ, String, ◌+◌, ◌-◌, ◌*◌, ◌/◌, Bool, true, false, ◌||◌, Option, none, some, List, [], ◌∷◌, ◌++◌,
  if◌then◌else◌, ltb, leb, length, get_or, truthy_number, text_eq,
}
use boar_pack.Dict.{get, set, delete, has}

pub record Provider : Type 0 where
  pub id : String
  pub name : String
  pub threshold : Option ℕ

-- An entry of `notificationsJournal`.
pub record Entry : Type 0 where
  pub attempts : ℕ
  pub last_notification : ℕ

abbrev pub Journal : Type 0
Journal = List (String × Entry)

-- Seconds between one alert and the next.
abbrev pub exponential_backoff : List ℕ
exponential_backoff = 299 ∷ 599 ∷ 1799 ∷ 3599 ∷ []

-- The number shown in an alert; `none` reads "unknown".
pub data Message : Type 0 where
  no_quotes : (name : String) → (seconds : Option ℕ) → Message
  active_again : (name : String) → Message

-- `Math.round((now - latest) / 1000)`
abbrev pub rounded_seconds : ℕ → ℕ → ℕ
rounded_seconds now latest = (now - latest + 500) / 1000

abbrev pub age : ℕ → Option ℕ → Option ℕ
age now none = none
age now (some latest) = some (rounded_seconds now latest)

abbrev pub exceeds : Option ℕ → ℕ → Bool
exceeds none seconds = false
exceeds (some th) seconds = if truthy_number (some th) then ltb th seconds else false

-- `diff === null || (provider.threshold && diff > provider.threshold)`
abbrev pub is_problematic : Provider → Option ℕ → Bool
is_problematic p none = true
is_problematic p (some seconds) = exceeds p.threshold seconds

abbrev truthy_or : Option ℕ → Option ℕ → Option ℕ
truthy_or none rest = rest
truthy_or (some n) rest = if truthy_number (some n) then some n else rest

-- `diff || provider.threshold || 'unknown'`
abbrev pub shown_seconds : Provider → Option ℕ → Option ℕ
shown_seconds p diff = truthy_or diff (truthy_or p.threshold none)

abbrev pub backed_off : ℕ → Entry → Bool
backed_off now e =
    leb (length exponential_backoff) e.attempts
    || ltb (now - e.last_notification) (1000 * get_or exponential_backoff e.attempts 0)

abbrev alert : Provider → Option ℕ → ℕ → ℕ → Journal → Journal × List Message
alert p diff attempts now j = (
  set p.id (record { attempts = attempts; last_notification = now }) j,
  no_quotes p.name (shown_seconds p diff) ∷ [],
)

-- The body of the loop over the providers.
unfoldable pub notify_provider : ℕ → Option ℕ → Provider → Journal → Journal × List Message
notify_provider now latest p j =
    if is_problematic p (age now latest)
    then elim (get p.id j) [
      | none ↦ alert p (age now latest) 0 now j
      | some e ↦
          if backed_off now e then (j, []) else alert p (age now latest) (e.attempts + 1) now j
    ]
    else (if has p.id j then (delete p.id j, active_again p.name ∷ []) else (j, []))

unfoldable pub notify_providers :
    ℕ → List (String × ℕ) → List Provider → Journal → Journal × List Message
notify_providers now latest [] j = (j, [])
notify_providers now latest (p ∷ ps) j =
    let (j', sent) = notify_provider now (get p.id latest) p j in
    let (j'', later) = notify_providers now latest ps j' in (j'', sent ++ later)

-- Nothing is sent and nothing noted while the notifications are switched off.
unfoldable pub send_notifications :
    Bool → ℕ → List (String × ℕ) → List Provider → Journal → Journal × List Message
send_notifications enabled now latest ps j =
    if enabled then notify_providers now latest ps j else (j, [])
