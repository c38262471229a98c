-- ===== src/Histogram.antt =====
-- metrique-aggregation/src/histogram.rs: how a histogram captures observations, and the strategy
-- `SortAndMerge`. Floating-point numbers are a parameter.
pub mod Sort
pub mod Runs
pub mod Drain
pub mod Numbers
mod Tests
use metrique.Prelude.{
  ℕ, ◌+◌, ◌-◌, ◌^◌, ◌≡◌, ◌⊎◌, Bool, true, false, not, List, [], ◌∷◌, ◌++◌, ltb, min, replicate,
  if◌then◌else◌,
}

-- `f64`: `le` is the order of `OrderedFloat`, where NaN is the greatest, and `eq` is `==`, which no
-- NaN satisfies and which holds of zeros of both signs.
pub record Float : Type 1 where
  pub F : Type 0
  pub le : F → F → Bool
  pub eq : F → F → Bool
  pub is_nan : F → Bool
  pub of_nat : ℕ → F
  pub mul : F → F → F
  pub div : F → F → F
  pub le_total : (a b : F) → (le a b ≡ true) ⊎ (le b a ≡ true)
  pub le_trans : (a b c : F) → le a b ≡ true → le b c ≡ true → le a c ≡ true
  pub eq_nan : (a b : F) → is_nan a ≡ true → eq a b ≡ false
  pub eq_subst : (a b c : F) → eq a b ≡ true → eq a c ≡ eq b c

-- `u64::saturating_add`.
abbrev pub saturating_add : ℕ → ℕ → ℕ
saturating_add a b = min (a + b) (2 ^ 64 - 1)

module _ (float : Float) where
  open float use {F, le, eq, is_nan, of_nat, mul, div}

  pub data Observation : Type 0 where
    unsigned : ℕ → Observation
    floating : F → Observation
    repeated : F → ℕ → Observation

  -- `SortAndMerge`, and its methods on the values stored.
  abbrev pub SortAndMerge : Type 0
  SortAndMerge = List F

  unfoldable pub record_many : F → ℕ → SortAndMerge → SortAndMerge
  record_many value count values = values ++ replicate count value

  -- `Capturer::metric`, one observation after the other.
  unfoldable pub capture : Observation → SortAndMerge → SortAndMerge
  unfolding record_many
  capture (unsigned v) values = record_many (of_nat v) 1 values
  capture (floating v) values = record_many v 1 values
  capture (repeated total occurrences) values =
      if ltb 0 occurrences
      then record_many (div total (of_nat occurrences)) occurrences values
      else values

  unfoldable pub add_value : List Observation → SortAndMerge → SortAndMerge
  unfolding capture
  add_value [] values = values
  add_value (obs ∷ distribution) values = add_value distribution (capture obs values)

  -- `sort_by_key`, which is stable.
  unfoldable pub insert : F → List F → List F
  insert v [] = v ∷ []
  insert v (w ∷ ws) = if le v w then v ∷ w ∷ ws else w ∷ insert v ws

  unfoldable pub sort : List F → List F
  unfolding insert
  sort [] = []
  sort (v ∷ vs) = insert v (sort vs)

  unfoldable pub without_nan : List F → List F
  without_nan [] = []
  without_nan (v ∷ vs) = if is_nan v then without_nan vs else v ∷ without_nan vs

  abbrev pub observe : F → ℕ → Observation
  observe value count = repeated (mul value (of_nat count)) count

  -- The loop of `drain` after the first value, and the push after it.
  unfoldable pub merge_runs : F → ℕ → List F → List Observation
  merge_runs current count [] = observe current count ∷ []
  merge_runs current count (value ∷ values) = elim (eq value current) [
    | true ↦ merge_runs current (saturating_add count 1) values
    | false ↦ observe current count ∷ merge_runs value 1 values
  ]

  unfoldable pub observations : List F → List Observation
  unfolding merge_runs
  observations [] = []
  observations (first ∷ values) = merge_runs first 1 values

  -- What `drain` returns, and the values after it.
  unfoldable pub drain : SortAndMerge → List Observation × SortAndMerge
  unfolding sort without_nan observations
  drain values = (observations (without_nan (sort values)), [])
