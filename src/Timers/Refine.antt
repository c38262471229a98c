-- ===== src/Timers/Refine.antt =====
-- The stopwatch keeps its tally, whichever way its duration is stored.
use mathlib.Core.Option
use metrique.Prelude.{◌≡◌, true, Option, none, map, All}
use metrique.Timers.{fresh_guard, Stopwatch, start}
use metrique.Timers.Guards.{value, is_exclusive}
use metrique.Timers.Tally.{Tally}

-- The stopwatch stores what the tally says. Only a shared duration has owned guards.
record Refines (s : Stopwatch) (t : Tally) : Type 0 where
  same_time : s.now ≡ t.time
  unstarted : s.start ≡ none
  borrows : s.borrowed ≡ Option.map fresh_guard t.borrowed
  owns : s.owned ≡ map (Option.map fresh_guard) t.owned
  sums : value s.durations ≡ t.total
  unshared : is_exclusive s.durations.0 ≡ true → All (λ o. o ≡ none) t.owned
  returns : s.returned ≡ t.returned
