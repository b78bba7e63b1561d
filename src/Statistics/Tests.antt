-- ===== src/Statistics/Tests.antt =====
-- The counters and the intervals at concrete inputs.
use boar_pack.Base.{◌+◌, ◌*◌, ◌<◌, ◌≤◌, ◌≡◌, ◌⊎◌, refl, true, false, List, [], ◌∷◌, text_eq, arith}
use boar_pack.Dict.{get, set}
use boar_pack.Statistics.Quotes.{Event, quotes, tick, run}
use boar_pack.Statistics.QuotesTotals.{stored, counted, pending, run_conserves}
use boar_pack.Statistics.Interval.{
  minute, week, unit_ms, determine_interval, determine_interval_finest,
}
use boar_pack.Statistics.Connections as C
use boar_pack.Statistics.ConnectionsTotals.{
  user_key, in_counters, in_rows, in_events, counters_conserve,
}

abbrev some_quotes : List Event
some_quotes = quotes "p" 2 ∷ quotes "q" 1 ∷ tick ∷ quotes "p" 3 ∷ []

some_quotes-stored : stored "p" (run some_quotes []).1 ≡ 2
unfolding run boar_pack.Statistics.Quotes.step boar_pack.Statistics.Quotes.increment_quotes_number
    boar_pack.Statistics.Quotes.save_accumulated_quotes_number set get
some_quotes-stored = refl

run_keeps_quotes :
    pending "p" (run some_quotes []).0 + stored "p" (run some_quotes []).1
    ≡ counted "p" some_quotes + pending "p" []
run_keeps_quotes = run_conserves "p" some_quotes []

finest_is_minute :
    (0 + 75 * unit_ms minute < 7200000)
    × ((determine_interval 0 7200000 ≡ week)
        ⊎ (7200000 ≤ 0 + 75 * unit_ms (determine_interval 0 7200000)))
unfolding determine_interval
finest_is_minute = determine_interval_finest 0 7200000 minute (omega arith)

abbrev some_connections : List C.Event
some_connections =
    C.user_quotes "u" C.fix 2
    ∷ C.target_quotes C.token "t" 5
    ∷ C.tick false true
    ∷ C.user_quotes "u" C.fix 1
    ∷ []

abbrev no_connections : C.Connections
no_connections = record { by_user = []; by_target = [] }

counters_conserve_example :
    in_counters (user_key "u" C.fix) (C.run some_connections no_connections).counters
      + (in_rows (user_key "u" C.fix) (C.run some_connections no_connections).saved
          + in_rows (user_key "u" C.fix) (C.run some_connections no_connections).lost)
    ≡ in_events (user_key "u" C.fix) some_connections
      + in_counters (user_key "u" C.fix) no_connections
counters_conserve_example = counters_conserve (user_key "u" C.fix) some_connections no_connections
