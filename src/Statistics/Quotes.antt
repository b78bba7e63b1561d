-- ===== src/Statistics/Quotes.antt =====
-- The counters of packages/liquidity-monitor-backend/src/quotes-statistic/quotes-statistic.service.ts.
use boar_pack.Base.{ℕ, String, ◌+◌, Option, none, some, List, [], ◌∷◌, ◌++◌, map, text_eq}
use boar_pack.Dict.{get, set}

-- `quotesNumberByProvider`
abbrev pub Counters : Type 0
Counters = List (String × ℕ)

-- A row handed to the repository.
pub record QuotesRow : Type 0 where
  pub quotes_provider_name : String
  pub quotes_number : ℕ

-- `x || 0`
abbrev pub or_zero : Option ℕ → ℕ
or_zero none = 0
or_zero (some n) = n

unfoldable pub increment_quotes_number : String → ℕ → Counters → Counters
increment_quotes_number provider n m = set provider (or_zero (get provider m) + n) m

-- The counters are cleared before the rows are saved, so they are empty whether or not that fails.
unfoldable pub save_accumulated_quotes_number : Counters → Counters × List QuotesRow
save_accumulated_quotes_number [] = ([], [])
save_accumulated_quotes_number (c ∷ m) =
    ([], map (λ e. record { quotes_provider_name = e.0; quotes_number = e.1 }) (c ∷ m))

-- What happens to the service: a call of another service, or the five-second job.
pub data Event : Type 0 where
  quotes : (provider : String) → (n : ℕ) → Event
  tick : Event

unfoldable pub step : Event → Counters → Counters × List QuotesRow
step (quotes provider n) m = (increment_quotes_number provider n m, [])
step tick m = save_accumulated_quotes_number m

-- The counters after a history, and all rows handed to the repository in it.
unfoldable pub run : List Event → Counters → Counters × List QuotesRow
run [] m = (m, [])
run (e ∷ es) m = let (m', rows) = step e m in let (m'', later) = run es m' in (m'', rows ++ later)
