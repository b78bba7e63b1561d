-- ===== src/Monitoring/Backoff.antt =====
-- What one round does to a provider's entry, and how alerts are spaced during an outage.
use boar_pack.Base.{
  ℕ, String, ◌+◌, ◌≡◌, Bool, true, false, not, is_some, Option, none, some, List, [], ◌∷◌, ◌==◌,
  if◌then◌else◌, text_eq, arith, Option-cases, inl, inr,
}
use text.Mathlib.TextEquality.{eq_iff}
use text.Mathlib.TextPositions.{eq_refl}
use boar_pack.Dict.{get, get-set, get-delete, has-get}
use boar_pack.Monitoring.Notify.{
  Provider, Entry, Journal, Message, no_quotes, active_again, age, is_problematic, shown_seconds,
  backed_off, notify_provider,
}

-- The round as it concerns the provider's own entry.
unfoldable pub next_entry : ℕ → Bool → Option Entry → Option Entry
next_entry now false e = none
next_entry now true none = some (record { attempts = 0; last_notification = now })
next_entry now true (some e) =
    if backed_off now e
    then some e
    else some (record { attempts = e.attempts + 1; last_notification = now })

-- The round sends an alert.
abbrev pub alerts : ℕ → Option Entry → Bool
alerts now none = true
alerts now (some e) = not (backed_off now e)

abbrev pub problematic : ℕ → Option ℕ → Provider → Bool
problematic now latest p = is_problematic p (age now latest)

-- The messages of a round that finds the provider problematic, or well.
abbrev pub round_messages : ℕ → Option ℕ → Provider → Bool → Option Entry → List Message
round_messages now latest p true e =
    if alerts now e then no_quotes p.name (shown_seconds p (age now latest)) ∷ [] else []
round_messages now latest p false e = if is_some e then active_again p.name ∷ [] else []

module _ (now : ℕ) (latest : Option ℕ) (p : Provider) (j : Journal) where
  pub get-notify_provider :
      (k : String)
      → get k (notify_provider now latest p j).0
        ≡ (if p.id == k then next_entry now (problematic now latest p) (get p.id j) else get k j)
  unfolding notify_provider next_entry
  get-notify_provider k = elim (Option-cases (get p.id j)) [
    | inl e ↦ ground (
      arith,
      e,
      has-get p.id j,
      get-set p.id k (record { attempts = 0; last_notification = now }) j,
      get-delete p.id k j,
      eq_iff p.id k,
    )
    | inr (old, e) ↦ ground (
      arith,
      e,
      has-get p.id j,
      get-set p.id k (record { attempts = old.attempts + 1; last_notification = now }) j,
      get-delete p.id k j,
      eq_iff p.id k,
    )
  ]

  pub get-notify_provider_self :
      get p.id (notify_provider now latest p j).0
      ≡ next_entry now (problematic now latest p) (get p.id j)
  get-notify_provider_self = ground (arith, get-notify_provider p.id, eq_refl p.id)

  pub sent-notify_provider :
      (notify_provider now latest p j).1
      ≡ round_messages now latest p (problematic now latest p) (get p.id j)
  unfolding notify_provider
  sent-notify_provider = ground (arith, has-get p.id j)
