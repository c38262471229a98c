-- ===== src/Congress.antt =====
-- The sampler of metrique-writer/src/sample/congress.rs. `f32` is a parameter.
pub mod Rates
pub mod Kept
mod Tests
use text.Mathlib.Text.{◌==◌ as str_eq}
use metrique.Prelude.{
  ℕ, ◌+◌, ◌/◌, ◌<◌, Bool, true, false, ◌||◌, min, Option, none, some, List, [], ◌∷◌, ltb, leb,
  length, if◌then◌else◌, ◌%◌, ◌^◌, ◌&&◌,
}
use metrique.Emf.Entry.{Dimensions as Group, dimension_set_key as sorted, equivalent}

-- The operations of `f32` that the sampler uses, `of_nat` being `as f32`.
pub record Float32 : Type 1 where
  pub F : Type 0
  pub zero : F
  pub one : F
  pub of_nat : ℕ → F
  pub add : F → F → F
  pub sub : F → F → F
  pub mul : F → F → F
  pub div : F → F → F
  pub min : F → F → F
  pub less : F → F → Bool
  pub at_most : F → F → Bool
  pub equal : F → F → Bool

-- `u32` arithmetic in a release build.
abbrev pub u32 : ℕ → ℕ
u32 n = n % 2 ^ 32

abbrev pub exp_moving_average_window : ℕ
exp_moving_average_window = 16

abbrev pub no_observations_ttl : ℕ
no_observations_ttl = exp_moving_average_window / 2

-- Whether an element has the name of the one after it, which `validate_groups` forbids.
unfoldable pub repeats_name : Group → Bool
repeats_name [] = false
repeats_name (p ∷ []) = false
repeats_name (p ∷ q ∷ group) = str_eq p.0 q.0 || repeats_name (q ∷ group)

module _ (float : Float32) where
  open float use {F, of_nat}

  pub record ExpMovingAverage : Type 0 where
    pub samples : ℕ
    pub value : F

  pub record GroupState : Type 0 where
    pub current_observed : ℕ
    pub consecutive_no_observations : ℕ
    pub average_observed : ExpMovingAverage
    pub sample_rate : F
    pub size_in_congress : F

  pub record CongressSample : Type 0 where
    pub interval : ℕ
    pub target_observed : ℕ
    pub validate_groups : Bool
    pub next_interval_start : ℕ
    pub current_observed : ℕ
    pub groups : List (Group × GroupState)

  -- What `format` does: it panics, drops the entry, or formats it with a sample rate.
  pub data Decision : Type 0 where
    panicked : Decision
    dropped : Decision
    formatted : F → Decision

  unfoldable pub add_sample : F → ExpMovingAverage → ExpMovingAverage
  add_sample sample average =
      let samples = min exp_moving_average_window (average.samples + 1) in
      let decay = float.div float.one (of_nat samples) in
      record {
        samples = samples;
        value =
            float.add (float.mul decay sample)
              (float.mul (float.sub float.one decay) average.value);
      }

  -- The state of a group that no entry has been of.
  unfoldable pub new_group : GroupState
  new_group = record {
    current_observed = 0;
    consecutive_no_observations = 0;
    average_observed = record { samples = 0; value = float.zero };
    sample_rate = float.one;
    size_in_congress = float.zero;
  }

  unfoldable pub record_observation : GroupState → GroupState
  record_observation g = record g { current_observed = u32 (g.current_observed + 1) }

  -- None when the group is not retained.
  unfoldable pub update_and_retain : GroupState → Option GroupState
  unfolding add_sample
  update_and_retain g =
      if ltb 0 g.current_observed
      then some (record g {
        current_observed = 0;
        average_observed = add_sample (of_nat g.current_observed) g.average_observed;
        consecutive_no_observations = 0;
      })
      else if leb no_observations_ttl g.consecutive_no_observations
      then none
      else some (record g {
        current_observed = 0;
        consecutive_no_observations = g.consecutive_no_observations + 1;
      })

  unfoldable pub retain : List (Group × GroupState) → List (Group × GroupState)
  unfolding update_and_retain
  retain [] = []
  retain ((key, g) ∷ groups) =
      let rest = retain groups in
      elim (update_and_retain g) [ none ↦ rest | some g' ↦ (key, g') ∷ rest ]

  -- The size of a group, by the average that it is observed.
  unfoldable pub size_of : F → F → F → F
  size_of flat_rate group_senate_size average =
      let group_house_size = float.mul flat_rate average in
      if float.less group_house_size group_senate_size
      then float.min average group_senate_size
      else group_house_size

  -- The groups with their sizes, and the size of the congress.
  unfoldable pub seat : F → F → F → List (Group × GroupState) → F × List (Group × GroupState)
  unfolding size_of
  seat flat_rate senate size [] = (size, [])
  seat flat_rate senate size ((key, g) ∷ groups) =
      let own = size_of flat_rate senate g.average_observed.value in
      let (total, rest) = seat flat_rate senate (float.add size own) groups in
      (total, (key, record g { size_in_congress = own }) ∷ rest)

  -- The rate of a group, given the factor by which sizes are scaled.
  unfoldable pub scaled : F → GroupState → F
  scaled scale_factor g =
      if float.at_most g.average_observed.value float.zero
      then float.one
      else float.min
          (float.div (float.mul g.size_in_congress scale_factor) g.average_observed.value) float.one

  unfoldable pub set_rates :
      (GroupState → F) → List (Group × GroupState) → List (Group × GroupState)
  set_rates rate [] = []
  set_rates rate ((key, g) ∷ groups) =
      (key, record g { sample_rate = rate g }) ∷ set_rates rate groups

  unfoldable pub update_rates : CongressSample → CongressSample
  unfolding retain seat scaled set_rates
  update_rates s =
      let retained = retain s.groups in
      let current_observed = of_nat s.current_observed in
      let target_observed = of_nat s.target_observed in
      let flat_rate = float.div target_observed current_observed in
      let group_senate_size = float.div target_observed (of_nat (length retained)) in
      let (congress_size, seated) = seat flat_rate group_senate_size float.zero retained in
      record s {
        current_observed = 0;
        groups =
            set_rates
              (if float.at_most current_observed target_observed
                then (λ g. float.one)
                else scaled (float.div target_observed congress_size))
              seated;
      }

  -- The state of a group, which is new if there is none, observed once more.
  unfoldable pub observe : Group → List (Group × GroupState) → F × List (Group × GroupState)
  unfolding record_observation new_group
  observe group [] = (float.one, (group, record_observation new_group) ∷ [])
  observe group ((key, g) ∷ groups) =
      let (rate, rest) = observe group groups in
      if equivalent group key
      then (g.sample_rate, (key, record_observation g) ∷ groups)
      else (rate, (key, g) ∷ rest)

  -- When the interval has ended, the next one begins.
  unfoldable pub refresh : ℕ → CongressSample → CongressSample
  unfolding update_rates
  refresh now s =
      if ltb s.next_interval_start now
      then update_rates (record s { next_interval_start = now + s.interval })
      else s

  unfoldable pub sample_rate : Group → ℕ → CongressSample → F × CongressSample
  unfolding refresh observe
  sample_rate group now s =
      let current = refresh now s in
      let (rate, groups) = observe group current.groups in
      (
        rate,
        record current { current_observed = u32 (current.current_observed + 1); groups = groups },
      )

  -- An entry of a group, at a time, with the number that would be drawn for it.
  unfoldable pub format : Group → ℕ → F → CongressSample → Decision × CongressSample
  unfolding repeats_name sample_rate
  format entry now drawn s =
      let group = sorted entry in
      let (rate, s') = sample_rate group now s in
      if s.validate_groups && repeats_name group
      then (panicked, s)
      else if float.equal rate float.one || float.at_most drawn rate
      then (formatted rate, s')
      else (dropped, s')

  -- A sampler just built, and what it does with entries, one after the other.
  unfoldable pub build : ℕ → ℕ → Bool → ℕ → CongressSample
  build interval target_observed validate_groups now = record {
    interval = interval;
    target_observed = target_observed;
    validate_groups = validate_groups;
    next_interval_start = now;
    current_observed = 0;
    groups = [];
  }

  unfoldable pub run : List (Group × ℕ × F) → CongressSample → List Decision × CongressSample
  unfolding format
  run [] s = ([], s)
  run ((entry, now, drawn) ∷ entries) s =
      let (decision, s') = format entry now drawn s in
      let (decisions, s'') = run entries s' in (decision ∷ decisions, s'')
