-- ===== src/Congress/Kept.antt =====
-- When the sampler of metrique-writer/src/sample/congress.rs drops nothing.
use metrique.Prelude.{
  ℕ, ◌≤◌, ◌≡◌, refl, true, false, ◌&&◌, List, [], ◌∷◌, ltb, arith, Bool-cases, inl, inr, All,
}
use metrique.Emf.Entry.{Dimensions as Group, dimension_set_key as sorted, equivalent}
use metrique.Congress.{
  Float32, GroupState, CongressSample, Decision, panicked, dropped, formatted, new_group,
  record_observation, set_rates, update_rates, refresh, observe, sample_rate, format, run,
  repeats_name,
}

-- What is relied on of `f32`: integers are converted in order, and 1 is equal to itself.
pub record IsFloat (float : Float32) : Type 0 where
  pub ordered : (m n : ℕ) → m ≤ n → float.at_most (float.of_nat m) (float.of_nat n) ≡ true
  pub one_equal : float.equal float.one float.one ≡ true

module _ (float : Float32) (laws : IsFloat float) where
  open float use {F, one}

  -- That no group is sampled.
  abbrev HasRate : Group × GroupState float → Type 0
  HasRate (key, g) = g.sample_rate ≡ one

  -- An entry that is formatted as it is, unless its group has a name twice.
  abbrev pub IsKept : Decision float → Type 0
  IsKept panicked = Unit {0}
  IsKept dropped = ⊥
  IsKept (formatted rate) = rate ≡ one

  set_rates-HasRate :
      (groups : List (Group × GroupState float)) → All HasRate (set_rates float (λ g. one) groups)
  unfolding set_rates
  set_rates-HasRate [] = tt
  set_rates-HasRate ((key, g) ∷ groups) = (refl, set_rates-HasRate groups)

  update_rates-HasRate :
      (s : CongressSample float)
      → s.current_observed ≤ s.target_observed
      → All HasRate (update_rates float s).groups
  unfolding update_rates
  update_rates-HasRate s h =
      rw (laws.ordered s.current_observed s.target_observed h) (set_rates-HasRate _)

  observe-HasRate :
      (group : Group) (groups : List (Group × GroupState float))
      → All HasRate groups
      → ((observe float group groups).0 ≡ one) × All HasRate (observe float group groups).1
  unfolding observe record_observation new_group
  observe-HasRate group [] h = (refl, (refl, tt))
  observe-HasRate group ((key, g) ∷ groups) (at, rest) = elim (Bool-cases (equivalent group key)) [
    | inl same ↦ rw same (at, (at, rest))
    | inr other ↦
        let (found, kept) = observe-HasRate group groups rest in rw other (found, (at, kept))
  ]

  -- Within the interval, and with no group sampled, an entry is kept, and it stays so.
  format-IsKept :
      (entry : Group) (now : ℕ) (drawn : F) (s : CongressSample float)
      → now ≤ s.next_interval_start
      → All HasRate s.groups
      → IsKept (format float entry now drawn s).0
        × All HasRate (format float entry now drawn s).1.groups
        × ((format float entry now drawn s).1.next_interval_start ≡ s.next_interval_start)
  unfolding format sample_rate refresh
  format-IsKept entry now drawn s h all =
      let within : ltb s.next_interval_start now ≡ false = ground (arith, h) in
      let (found, kept) = observe-HasRate (sorted entry) s.groups all in
      elim (Bool-cases (s.validate_groups && repeats_name (sorted entry))) [
        | inl repeated ↦ rw (within, repeated) (tt, all, refl)
        | inr fine ↦ rw (within, fine, found, laws.one_equal) (refl, kept, refl)
      ]

  run-IsKept :
      (entries : List (Group × ℕ × F)) (s : CongressSample float)
      → All (λ e. e.1 ≤ s.next_interval_start) entries
      → All HasRate s.groups
      → All IsKept (run float entries s).0
  unfolding run
  run-IsKept [] s within all = tt
  run-IsKept ((entry, now, drawn) ∷ entries) s (h, within) all =
      let (kept, all', same) = format-IsKept entry now drawn s h all in
      (kept, run-IsKept entries (format float entry now drawn s).1 (rw same within) all')

  -- When no more entries were observed in an interval than the target, then after the update no entry
  -- is dropped until the next one, whatever is drawn: each is formatted with the rate 1, but for those
  -- whose group has a name twice.
  pub update_rates-IsKept :
      (s : CongressSample float) (entries : List (Group × ℕ × F))
      → s.current_observed ≤ s.target_observed
      → All (λ e. e.1 ≤ s.next_interval_start) entries
      → All IsKept (run float entries (update_rates float s)).0
  update_rates-IsKept s entries few within =
      run-IsKept entries (update_rates float s) (unfold update_rates in within)
        (update_rates-HasRate s few)
