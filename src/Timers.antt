-- ===== src/Timers.antt =====
-- metrique/src/timers.rs: `Timer`, and `Stopwatch` with its two guards. Times are numbers of
-- nanoseconds, read from the time source `now`; a `Duration` is never so long that a sum overflows.
pub mod Tally
pub mod Guards
pub mod Refine
pub mod Stop
mod Tests
use mathlib.Core.Option
use metrique.Prelude.{ℕ, ◌+◌, ◌-◌, Option, none, some, List, [], ◌∷◌, ◌++◌, get_elem?, set}

-- `Instant::elapsed`, for an instant that the time source gave before.
abbrev pub elapsed : ℕ → ℕ → ℕ
elapsed now start = now - start

pub record Timer : Type 0 where
  pub start : ℕ
  pub duration : Option ℕ

unfoldable pub start_now : ℕ → Timer
start_now now = record { start = now; duration = none }

-- The timer after `stop`, and what it returns.
unfoldable pub stop : ℕ → Timer → Timer × ℕ
stop now t = elim t.duration [
  | some duration ↦ (t, duration)
  | none ↦ (record t { duration = some (elapsed now t.start) }, elapsed now t.start)
]

unfoldable pub close_timer : ℕ → Timer → ℕ
close_timer now t = elim t.duration [ some duration ↦ duration | none ↦ elapsed now t.start ]

-- `Shared` refers to a `SharedDuration`. A stopwatch makes one at most, so it is told apart by no
-- address: its content is the second part of a `Durations`.
pub data MaybeGuardedDuration : Type 0 where
  exclusive : Option ℕ → MaybeGuardedDuration
  shared : MaybeGuardedDuration

abbrev pub Durations : Type 0
Durations = MaybeGuardedDuration × Option ℕ

abbrev pub unwrap_or_default : Option ℕ → ℕ
unwrap_or_default none = 0
unwrap_or_default (some d) = d

unfoldable pub take : Durations → Durations
take (exclusive duration, cell) = (exclusive none, cell)
take (shared, cell) = (shared, none)

-- After it the duration is shared, and the caller has a reference to it.
unfoldable pub shared_cloned : Durations → Durations
shared_cloned (exclusive duration, cell) = (shared, duration)
shared_cloned (shared, cell) = (shared, cell)

unfoldable pub add_assign : Durations → ℕ → Durations
add_assign (exclusive duration, cell) rhs =
    (exclusive (some (unwrap_or_default duration + rhs)), cell)
add_assign (shared, cell) rhs = (shared, some (unwrap_or_default cell + rhs))

-- `TimerGuard` and `OwnedTimerGuard`, less their reference to the durations.
pub record TimerGuard : Type 0 where
  pub start : Option ℕ
  pub self_time : Option ℕ

unfoldable pub stop_ref : ℕ → TimerGuard → Option ℕ × TimerGuard
stop_ref now g = elim g.self_time [
  | some time ↦ (some time, g)
  | none ↦ let time = Option.map (elapsed now) g.start in (time, record g { self_time = time })
]

unfoldable pub drop_guard : ℕ → TimerGuard → Durations → Durations
unfolding stop_ref add_assign
drop_guard now g d = elim (stop_ref now g).0 [ none ↦ d | some time ↦ add_assign d time ]

-- How a guard ends: each of its methods takes it by value, so that it is dropped at the end.
pub data Ending : Type 0 where
  dropping : Ending
  stopping : Ending
  overwriting : Ending
  discarding : Ending

-- The durations after it, and what was returned so far, where `stop` adds its result.
unfoldable pub end_guard :
    Ending → ℕ → TimerGuard → Durations → List (Option ℕ) → Durations × List (Option ℕ)
unfolding stop_ref drop_guard take
end_guard dropping now g d returned = (drop_guard now g d, returned)
end_guard stopping now g d returned =
    let (time, stopped) = stop_ref now g in (drop_guard now stopped d, returned ++ time ∷ [])
end_guard overwriting now g d returned = (drop_guard now g (take d), returned)
end_guard discarding now g d returned =
    (drop_guard now (record g { start = none; self_time = none }) d, returned)

-- The stopwatch, its time source, and the guards that it has given out: the one that borrows it, and
-- the owned ones, at their places also when they have ended.
pub record Stopwatch : Type 0 where
  pub now : ℕ
  pub start : Option ℕ
  pub durations : Durations
  pub borrowed : Option TimerGuard
  pub owned : List (Option TimerGuard)
  pub returned : List (Option ℕ)

unfoldable pub new : ℕ → Stopwatch
new now = record {
  now = now;
  start = none;
  durations = (exclusive none, none);
  borrowed = none;
  owned = [];
  returned = [];
}

abbrev pub fresh_guard : ℕ → TimerGuard
fresh_guard now = record { start = some now; self_time = none }

unfoldable pub start : Stopwatch → Stopwatch
start s = record s { borrowed = some (fresh_guard s.now) }

unfoldable pub start_owned : Stopwatch → Stopwatch
unfolding shared_cloned
start_owned s = record s {
  durations = shared_cloned s.durations;
  owned = s.owned ++ some (fresh_guard s.now) ∷ [];
}

unfoldable pub clear : Stopwatch → Stopwatch
unfolding take
clear s = record s { durations = take s.durations; start = none }

-- `close` of a stopwatch.
unfoldable pub close : Stopwatch → Option ℕ
close s = elim s.durations.0 [
  | exclusive (some duration) ↦ some duration
  | exclusive none ↦ Option.map (elapsed s.now) s.start
  | shared ↦ s.durations.1
]

-- The end of the guard that borrows the stopwatch, if it is there.
unfoldable pub end_borrowed : Ending → Option TimerGuard → Stopwatch → Stopwatch
unfolding end_guard
end_borrowed e none s = s
end_borrowed e (some g) s =
    let (d, r) = end_guard e s.now g s.durations s.returned in
    record s { durations = d; returned = r; borrowed = none }

-- The end of an owned guard, which has a reference to the shared duration.
unfoldable pub end_owned : Ending → ℕ → Option (Option TimerGuard) → Stopwatch → Stopwatch
unfolding end_guard
end_owned e i (some (some g)) s =
    let (d, r) = end_guard e s.now g (shared, s.durations.1) s.returned in
    record s { durations = (s.durations.0, d.1); returned = r; owned = set s.owned i none }
end_owned e i (some none) s = s
end_owned e i none s = s

-- What can happen next: time passes, or a method is called.
pub data Action : Type 0 where
  pass : ℕ → Action
  start_guard : Action
  start_owned_guard : Action
  end_start : Ending → Action
  end_start_owned : Ending → ℕ → Action
  clear_all : Action

-- While a guard borrows the stopwatch, no method of the stopwatch can be called.
abbrev pub unless_borrowed : {A B : Type 0} → Option B → A → A → A
unless_borrowed none a b = a
unless_borrowed (some g) a b = b

unfoldable pub act : Action → Stopwatch → Stopwatch
unfolding start start_owned clear end_borrowed end_owned
act (pass n) s = record s { now = s.now + n }
act start_guard s = unless_borrowed s.borrowed (start s) s
act start_owned_guard s = unless_borrowed s.borrowed (start_owned s) s
act (end_start e) s = end_borrowed e s.borrowed s
act (end_start_owned e i) s = end_owned e i (get_elem? s.owned i) s
act clear_all s = unless_borrowed s.borrowed (clear s) s

unfoldable pub run : List Action → Stopwatch → Stopwatch
run [] s = s
run (a ∷ actions) s = run actions (act a s)
