-- ===== src/Histogram/Tests.antt =====
-- Values recorded and drained, over whole numbers and NaN.
use metrique.Prelude.{ℕ, ◌≡◌, refl, Option, none, some, List, [], ◌∷◌, map, total, length, arith}
use metrique.Histogram.{unsigned, floating, repeated, add_value, drain, observe}
use metrique.Histogram.Numbers.{numbers}
use metrique.Histogram.Sort.{equals}
use metrique.Histogram.Runs.{times, Ascending}
use metrique.Histogram.Drain.{drained_runs, drain_lem}

-- 7, NaN, three times 3, and 7 again.
abbrev recorded : List (Option ℕ)
recorded =
    add_value numbers
      (unsigned 7
        ∷ floating none
        ∷ repeated (some 9) 3
        ∷ repeated (some 9) 0
        ∷ floating (some 7)
        ∷ [])
      []

drained : (drain numbers recorded).0 ≡ repeated (some 9) 3 ∷ repeated (some 14) 2 ∷ []
unfolding add_value drain
drained = refl

recorded_six : length recorded ≡ 6
unfolding add_value
recorded_six = refl

drain_lem_example :
    ((drain numbers recorded).0
      ≡ map (λ (v, n). observe numbers v n) (drained_runs numbers recorded))
    × Ascending numbers (drained_runs numbers recorded)
    × ((w : Option ℕ)
        → total (times numbers w) (drained_runs numbers recorded)
          ≡ total (equals numbers w) recorded)
    × ((drain numbers recorded).1 ≡ [])
drain_lem_example = drain_lem numbers recorded (omega (arith, recorded_six))
