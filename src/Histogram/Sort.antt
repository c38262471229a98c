-- ===== src/Histogram/Sort.antt =====
-- Sorting and the removal of NaN: what is kept, and in which order.
use metrique.Prelude.{
  ℕ, suc, ◌≤◌, length, ◌+◌, ◌≡◌, refl, true, false, List, [], ◌∷◌, total, Bool-cases, inl, inr,
  if◌then◌else◌, arith,
}
use metrique.Histogram.{Float, insert, sort, without_nan}

module _ (float : Float) where
  open float use {F, le, eq, is_nan, le_total, le_trans, eq_nan, eq_subst}

  -- Whether a value is equal to another, as a number to be summed.
  abbrev pub equals : F → F → ℕ
  equals w v = if eq v w then 1 else 0

  -- A value that is before the first of a list; each value before the next.
  abbrev pub Before : F → List F → Type 0
  Before v [] = Unit
  Before v (w ∷ ws) = le v w ≡ true

  abbrev pub IsSorted : List F → Type 0
  IsSorted [] = Unit
  IsSorted (v ∷ vs) = Before v vs × IsSorted vs

  total-insert :
      (w v : F) (vs : List F)
      → total (equals w) (insert float v vs) ≡ equals w v + total (equals w) vs
  unfolding insert
  total-insert w v [] = omega arith
  total-insert w v (u ∷ us) = ground (arith, total-insert w v us)

  pub total-sort : (w : F) (vs : List F) → total (equals w) (sort float vs) ≡ total (equals w) vs
  unfolding sort
  total-sort w [] = refl
  total-sort w (v ∷ vs) = omega (arith, total-insert w v (sort float vs), total-sort w vs)

  pub total-without_nan :
      (w : F) (vs : List F) → total (equals w) (without_nan float vs) ≡ total (equals w) vs
  unfolding without_nan
  total-without_nan w [] = refl
  total-without_nan w (v ∷ vs) = ground (arith, total-without_nan w vs, eq_nan v w)

  le_other : (v w : F) → le v w ≡ false → le w v ≡ true
  le_other v w h = ground (arith, le_total v w)

  pub Before-trans : (u v : F) (vs : List F) → le u v ≡ true → Before v vs → Before u vs
  Before-trans u v [] h k = tt
  Before-trans u v (w ∷ ws) h k = le_trans u v w h k

  Before-insert :
      (u v : F) (vs : List F) → le u v ≡ true → Before u vs → Before u (insert float v vs)
  unfolding insert
  Before-insert u v [] h k = h
  Before-insert u v (w ∷ ws) h k = ground arith

  insert-IsSorted : (v : F) (vs : List F) → IsSorted vs → IsSorted (insert float v vs)
  unfolding insert
  insert-IsSorted v [] s = (tt, tt)
  insert-IsSorted v (w ∷ ws) s = elim (Bool-cases (le v w)) [
    | inl first ↦ rw first (first, s)
    | inr later ↦ rw later (Before-insert w v ws (le_other v w later) s.0, insert-IsSorted v ws s.1)
  ]

  sort-IsSorted : (vs : List F) → IsSorted (sort float vs)
  unfolding sort
  sort-IsSorted [] = tt
  sort-IsSorted (v ∷ vs) = insert-IsSorted v (sort float vs) (sort-IsSorted vs)

  Before-without_nan :
      (u : F) (vs : List F) → Before u vs → IsSorted vs → Before u (without_nan float vs)
  unfolding without_nan
  Before-without_nan u [] h s = tt
  Before-without_nan u (v ∷ vs) h s = elim (Bool-cases (is_nan v)) [
    | inl nan ↦ rw nan (Before-without_nan u vs (Before-trans u v vs h s.0) s.1)
    | inr number ↦ rw number h
  ]

  without_nan-IsSorted : (vs : List F) → IsSorted vs → IsSorted (without_nan float vs)
  unfolding without_nan
  without_nan-IsSorted [] s = tt
  without_nan-IsSorted (v ∷ vs) s = elim (Bool-cases (is_nan v)) [
    | inl nan ↦ rw nan (without_nan-IsSorted vs s.1)
    | inr number ↦ rw number (Before-without_nan v vs s.0 s.1, without_nan-IsSorted vs s.1)
  ]

  pub in_order : (vs : List F) → IsSorted (without_nan float (sort float vs))
  in_order vs = without_nan-IsSorted (sort float vs) (sort-IsSorted vs)

  length-insert : (v : F) (vs : List F) → length (insert float v vs) ≡ suc (length vs)
  unfolding insert
  length-insert v [] = refl
  length-insert v (w ∷ ws) = ground (arith, length-insert v ws)

  length-sort : (vs : List F) → length (sort float vs) ≡ length vs
  unfolding sort
  length-sort [] = refl
  length-sort (v ∷ vs) = omega (arith, length-insert v (sort float vs), length-sort vs)

  length-without_nan : (vs : List F) → length (without_nan float vs) ≤ length vs
  unfolding without_nan
  length-without_nan [] = omega arith
  length-without_nan (v ∷ vs) = ground (arith, length-without_nan vs)

  pub fewer : (vs : List F) → length (without_nan float (sort float vs)) ≤ length vs
  fewer vs = omega (arith, length-without_nan (sort float vs), length-sort vs)
