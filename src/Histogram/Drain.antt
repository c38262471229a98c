-- ===== src/Histogram/Drain.antt =====
-- What `drain` makes of the values recorded.
use metrique.Prelude.{ℕ, ◌<◌, ◌^◌, ◌≡◌, refl, ◌∙◌, List, [], ◌∷◌, map, total, length, arith}
use metrique.Histogram.{Float, SortAndMerge, sort, without_nan, observe, observations, drain}
use metrique.Histogram.Sort.{equals, IsSorted, total-sort, total-without_nan, in_order, fewer}
use metrique.Histogram.Runs.{
  runs, times, Ascending, merge_runs_lem, total-runs_from, runs_from-Ascending,
}

module _ (float : Float) where
  open float use {F}

  -- What `drain` observes: the runs of the values recorded.
  abbrev pub drained_runs : SortAndMerge float → List (F × ℕ)
  drained_runs values = runs float (without_nan float (sort float values))

  runs_lem :
      (vs : List F)
      → IsSorted float vs
      → length vs < 2 ^ 64
      → (observations float vs ≡ map (λ (v, n). observe float v n) (runs float vs))
        × Ascending float (runs float vs)
        × ((w : F) → total (times float w) (runs float vs) ≡ total (equals float w) vs)
  unfolding observations
  runs_lem [] s h = (refl, tt, λ w. refl)
  runs_lem (v ∷ vs) s h = (
    merge_runs_lem float v 1 vs,
    runs_from-Ascending float v 1 vs (omega arith) s,
    λ w. total-runs_from float w v 1 vs (omega arith),
  )

  -- `drain` observes runs of equal values: none is empty, each is before the next and of another
  -- value, and fewer than `2 ^ 64` values being recorded, each value stands in them as often as it
  -- was recorded, NaN never. No value is stored after it.
  pub drain_lem :
      (values : SortAndMerge float)
      → length values < 2 ^ 64
      → ((drain float values).0 ≡ map (λ (v, n). observe float v n) (drained_runs values))
        × Ascending float (drained_runs values)
        × ((w : F) → total (times float w) (drained_runs values) ≡ total (equals float w) values)
        × ((drain float values).1 ≡ [])
  unfolding drain
  drain_lem values h =
      let vs = without_nan float (sort float values) in
      let (seen, ascending, counted) =
        runs_lem vs (in_order float values) (omega (arith, fewer float values)) in
      (
        seen,
        ascending,
        λ w. counted w ∙ total-without_nan float w (sort float values) ∙ total-sort float w values,
        refl,
      )
