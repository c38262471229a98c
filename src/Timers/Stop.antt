-- ===== src/Timers/Stop.antt =====
-- A timer that is stopped keeps its duration.
use metrique.Prelude.{ℕ, ◌≡◌, arith}
use metrique.Timers.{elapsed, start_now, stop, close_timer}

-- The first `stop` of a timer returns the time since it was started, and after it every further
-- `stop` and the close return the same, whenever they are called, and leave the timer as it is;
-- without a `stop`, the close gives the time since the start.
pub stop-stop :
    (now first later : ℕ)
    → ((stop first (start_now now)).1 ≡ elapsed first now)
      × ((stop later (stop first (start_now now)).0).1 ≡ elapsed first now)
      × ((stop later (stop first (start_now now)).0).0 ≡ (stop first (start_now now)).0)
      × (close_timer later (stop first (start_now now)).0 ≡ elapsed first now)
      × (close_timer later (start_now now) ≡ elapsed later now)
unfolding start_now stop close_timer
stop-stop now first later = ground arith
