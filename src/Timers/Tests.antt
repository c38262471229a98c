-- ===== src/Timers/Tests.antt =====
-- Runs of a stopwatch and of a timer.
use metrique.Prelude.{◌≡◌, refl, some, List, [], ◌∷◌}
use metrique.Timers.{
  new, close, act, run, dropping, stopping, overwriting, discarding, Action, pass, start_guard,
  start_owned_guard, end_start, end_start_owned,
}

-- A guard of 5, an owned guard of 4 that overlaps one that is discarded, and one that overwrites.
abbrev story : List Action
story =
    start_guard
    ∷ pass 5
    ∷ end_start stopping
    ∷ start_owned_guard
    ∷ pass 3
    ∷ start_owned_guard
    ∷ pass 1
    ∷ end_start_owned dropping 0
    ∷ end_start_owned discarding 1
    ∷ []

story_closed : close (run story (new 100)) ≡ some 9
unfolding close run act new
story_closed = refl

overwritten : List Action
overwritten =
    start_owned_guard
    ∷ pass 3
    ∷ end_start_owned stopping 0
    ∷ start_guard
    ∷ pass 7
    ∷ end_start overwriting
    ∷ []

overwritten_closed : close (run overwritten (new 100)) ≡ some 7
unfolding close run act new overwritten
overwritten_closed = refl
