-- ===== src/Uptime/Tests.antt =====
-- Two instances over one table, with ranges of numbers.
use boar_pack.Base.{
  ℕ, ◌≡◌, refl, Option, none, some, List, [], ◌∷◌, number_eq, text_eq, ◌==◌, if◌then◌else◌, ltb,
  arith,
}
use boar_pack.Dict.{get, set}
use boar_pack.Uptime.Service.{
  World, Event, constructed, initialised, ticked, destroyed, on_module_init, update,
  update_uptime_statistic, on_module_destroy, step, run,
}
use boar_pack.Uptime.Bounds.{run-uptime, Ranges}

data Span : Type 0 where
  empty : Span
  span : (from to : Option ℕ) → Span

abbrev opens : ℕ → Span
opens t = span (some t) none

abbrev closes : Option ℕ → ℕ → Option Span
closes none u = some (span none (some u))
closes (some l) u =
    if ltb u l then none else if l == u then some empty else some (span (some l) (some u))

abbrev begins_at : Span → Option ℕ
begins_at empty = none
begins_at (span from to) = from

closes-Ranges : Ranges opens closes begins_at
closes-Ranges t u before = (span (some t) (some u), ground (arith, before), refl)

abbrev nothing : World Span
nothing = record { instances = []; table = [] }

abbrev early : List Event
early = constructed 1 (some "api") ∷ initialised 1 5 "a" ∷ ticked 1 5 ∷ ticked 1 10 ∷ []

abbrev unnamed : List Event
unnamed = constructed 1 (some "") ∷ initialised 1 5 "a" ∷ ticked 1 10 ∷ destroyed 1 12 ∷ []

abbrev life : List Event
life =
    constructed 2 none
    ∷ ticked 2 6
    ∷ ticked 1 10
    ∷ constructed 3 (some "prices")
    ∷ initialised 3 4 "b"
    ∷ ticked 3 3
    ∷ ticked 1 15
    ∷ destroyed 1 17
    ∷ []

run-uptime_example :
    (get "a"
        (run opens closes begins_at
          (constructed 1 (some "api") ∷ initialised 1 5 "a" ∷ life)
          nothing).table
      ≡ some (record { service_name = "api"; uptime_period = span (some 5) (some 17) }))
    × (begins_at (span (some 5) (some 17)) ≡ some 5)
unfolding get
run-uptime_example =
    run-uptime opens closes begins_at life 1 "a" "api" 5 nothing closes-Ranges refl refl refl
      (λ m s found. ground (arith, found)) refl

-- An update at the moment of the start empties the period, and the next has no start to keep.
start_is_lost :
    get "a" (run opens closes begins_at early nothing).table
    ≡ some (record { service_name = "api"; uptime_period = span none (some 10) })
unfolding run step on_module_init update_uptime_statistic update get set
start_is_lost = refl

-- An instance without a name has no row.
unnamed_is_off : (run opens closes begins_at unnamed nothing).table ≡ []
unfolding run step on_module_init update_uptime_statistic on_module_destroy get set
unnamed_is_off = refl
