-- ===== src/Histogram/Runs.antt =====
-- The loop of `drain`: runs of equal values.
use metrique.Prelude.{
  ℕ, ◌+◌, ◌<◌, ◌^◌, ◌≡◌, refl, ap, true, false, List, [], ◌∷◌, map, total, length, Bool-cases, inl,
  inr, if◌then◌else◌, arith,
}
use metrique.Histogram.{Float, saturating_add, observe, merge_runs}
use metrique.Histogram.Sort.{equals, IsSorted, Before-trans}

module _ (float : Float) where
  open float use {F, le, eq, is_nan, le_total, le_trans, eq_nan, eq_subst}

  -- A value, and how often it stands in a run.
  abbrev pub runs_from : F → ℕ → List F → List (F × ℕ)
  runs_from current count [] = (current, count) ∷ []
  runs_from current count (value ∷ values) = elim (eq value current) [
    | true ↦ runs_from current (saturating_add count 1) values
    | false ↦ (current, count) ∷ runs_from value 1 values
  ]

  abbrev pub runs : List F → List (F × ℕ)
  runs [] = []
  runs (first ∷ values) = runs_from first 1 values

  -- How often a value stands in runs.
  abbrev pub times : F → F × ℕ → ℕ
  times w (v, count) = if eq v w then count else 0

  -- A value is before that of the first run, and another one.
  abbrev pub Below : F → List (F × ℕ) → Type 0
  Below v [] = Unit
  Below v ((w, count) ∷ rs) = (le v w ≡ true) × (eq w v ≡ false)

  -- No run is empty, and each is before the next, with another value.
  abbrev pub Ascending : List (F × ℕ) → Type 0
  Ascending [] = Unit
  Ascending ((v, count) ∷ rs) = (0 < count) × Below v rs × Ascending rs

  pub merge_runs_lem :
      (current : F) (count : ℕ) (values : List F)
      → merge_runs float current count values
        ≡ map (λ (v, n). observe float v n) (runs_from current count values)
  unfolding merge_runs
  merge_runs_lem current count [] = refl
  merge_runs_lem current count (value ∷ values) = elim (Bool-cases (eq value current)) [
    | inl same ↦
        rw (same, merge_runs, runs_from) (merge_runs_lem current (saturating_add count 1) values)
    | inr other ↦
        rw (other, merge_runs, runs_from)
          (ap (λ os. observe float current count ∷ os) (merge_runs_lem value 1 values))
  ]

  pub total-runs_from :
      (w current : F) (count : ℕ) (values : List F)
      → count + length values < 2 ^ 64
      → total (times w) (runs_from current count values)
        ≡ times w (current, count) + total (equals float w) values
  total-runs_from w current count [] h = omega arith
  total-runs_from w current count (value ∷ values) h = ground (
    arith,
    total-runs_from w current (saturating_add count 1) values,
    total-runs_from w value 1 values,
    eq_subst value current w,
  )

  runs_from-Below :
      (v w : F) (count : ℕ) (values : List F)
      → le v w ≡ true
      → eq w v ≡ false
      → Below v (runs_from w count values)
  runs_from-Below v w count [] h k = (h, k)
  runs_from-Below v w count (value ∷ values) h k = elim (Bool-cases (eq value w)) [
    | inl same ↦ rw (same, runs_from) (runs_from-Below v w (saturating_add count 1) values h k)
    | inr other ↦ rw (other, runs_from) (h, k)
  ]

  pub runs_from-Ascending :
      (current : F) (count : ℕ) (values : List F)
      → 0 < count
      → IsSorted float (current ∷ values)
      → Ascending (runs_from current count values)
  runs_from-Ascending current count [] h s = (h, tt, tt)
  runs_from-Ascending current count (value ∷ values) h s = elim (Bool-cases (eq value current)) [
    | inl same ↦
        rw (same, runs_from)
          (runs_from-Ascending current (saturating_add count 1) values (omega arith)
            (Before-trans float current value values s.0 s.1.0, s.1.1))
    | inr other ↦
        rw (other, runs_from)
          (
            h,
            runs_from-Below current value 1 values s.0 other,
            runs_from-Ascending value 1 values (omega arith) s.1,
          )
  ]
