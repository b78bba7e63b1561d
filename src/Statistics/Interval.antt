-- ===== src/Statistics/Interval.antt =====
-- `determineInterval` and `getFormatTimeFunction`, which three services share word for word. Times
-- are in milliseconds.
use boar_pack.Base.{ℕ, ◌+◌, ◌*◌, ◌≤◌, ◌<◌, ◌≡◌, ◌⊎◌, Bool, if◌then◌else◌, leb, arith}

pub data Interval : Type 0 where
  second minute hour day week : Interval

abbrev pub unit_ms : Interval → ℕ
unit_ms second = 1000
unit_ms minute = 60 * 1000
unit_ms hour = 60 * 60 * 1000
unit_ms day = 24 * 60 * 60 * 1000
unit_ms week = 7 * 24 * 60 * 60 * 1000

abbrev pub target_bars : ℕ
target_bars = 75

-- The duration in units is at most the number of bars aimed at. A start after the end is a negative
-- duration, which is at most any number of bars.
abbrev pub fits : ℕ → ℕ → Interval → Bool
fits start end i = leb end (start + target_bars * unit_ms i)

unfoldable pub determine_interval : ℕ → ℕ → Interval
determine_interval start end =
    if fits start end second
    then second
    else if fits start end minute
    then minute
    else if fits start end hour
    then hour
    else if fits start end day
    then day
    else if fits start end week
    then week
    else week

-- From fine to coarse.
abbrev pub rank : Interval → ℕ
rank second = 0
rank minute = 1
rank hour = 2
rank day = 3
rank week = 4

-- The span has more than 75 units of each interval finer than the chosen one, and at most 75 of the
-- chosen one unless that is the week.
pub determine_interval_finest :
    (start end : ℕ) (finer : Interval)
    → rank finer < rank (determine_interval start end)
    → (start + 75 * unit_ms finer < end)
      × ((determine_interval start end ≡ week)
          ⊎ (end ≤ start + 75 * unit_ms (determine_interval start end)))
unfolding determine_interval
determine_interval_finest start end second h = ground (arith, h)
determine_interval_finest start end minute h = ground (arith, h)
determine_interval_finest start end hour h = ground (arith, h)
determine_interval_finest start end day h = ground (arith, h)
determine_interval_finest start end week h = ground (arith, h)
