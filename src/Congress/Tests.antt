-- ===== src/Congress/Tests.antt =====
-- A sampler over whole percents, and instances of the theorems.
use metrique.Prelude.{
  ℕ, ◌+◌, ◌-◌, ◌*◌, ◌/◌, ◌==◌, ◌≡◌, refl, true, min, List, [], ◌∷◌, ltb, leb, arith, All, le→leb,
}
use metrique.Emf.Entry.{Dimensions as Group, dimension_set_key, insert_pair, equivalent}
use metrique.Congress.{
  Float32, CongressSample, dropped, formatted, panicked, build, run, format, sample_rate, refresh,
  update_rates, retain, update_and_retain, add_sample, seat, size_of, set_rates, scaled, observe,
  record_observation, new_group, repeats_name,
}
use metrique.Congress.Rates.{IsCounted, run-build-IsCounted}
use metrique.Congress.Kept.{IsFloat, IsKept, update_rates-IsKept}

-- Numbers of percents.
abbrev percents : Float32
percents = record {
  F = ℕ;
  zero = 0;
  one = 100;
  of_nat = λ n. n * 100;
  add = λ a b. a + b;
  sub = λ a b. a - b;
  mul = λ a b. a * b / 100;
  div = λ a b. a * 100 / b;
  min = λ a b. min a b;
  less = λ a b. ltb a b;
  at_most = λ a b. leb a b;
  equal = λ a b. a == b;
}

percents-IsFloat : IsFloat percents
percents-IsFloat = record {
  ordered = λ m n h. le→leb (m * 100) (n * 100) (omega arith);
  one_equal = refl;
}

abbrev a : Group
a = ("Operation", "A") ∷ []

abbrev twice : Group
twice = ("Operation", "B") ∷ ("Operation", "A") ∷ []

-- Two entries of one group in an interval in which one is the target, and then others, at half the
-- rate: 30 is drawn for one and 90 for another.
abbrev entries : List (Group × ℕ × ℕ)
entries = (a, 1, 50) ∷ (a, 2, 50) ∷ (a, 20, 30) ∷ (a, 21, 90) ∷ (twice, 22, 0) ∷ []

entries_sampled :
    (run percents entries (build percents 10 1 true 0)).0
    ≡ formatted 100 ∷ formatted 100 ∷ formatted 50 ∷ dropped ∷ panicked ∷ []
unfolding run build format sample_rate refresh update_rates retain update_and_retain add_sample seat
    size_of set_rates scaled observe record_observation new_group repeats_name dimension_set_key
    insert_pair equivalent
entries_sampled = refl

run-build-IsCounted_example :
    IsCounted percents (run percents entries (build percents 10 1 true 0)).1
run-build-IsCounted_example = run-build-IsCounted percents 10 1 true 0 entries

abbrev within : List (Group × ℕ × ℕ)
within = (a, 7, 90) ∷ (twice, 9, 0) ∷ []

abbrev quiet : CongressSample percents
quiet = record {
  interval = 10;
  target_observed = 2;
  validate_groups = true;
  next_interval_start = 10;
  current_observed = 1;
  groups = (run percents ((a, 1, 50) ∷ []) (build percents 10 2 true 0)).1.groups;
}

update_rates-IsKept_example :
    All (IsKept percents percents-IsFloat) (run percents within (update_rates percents quiet)).0
update_rates-IsKept_example =
    update_rates-IsKept percents percents-IsFloat quiet within (omega arith) (omega arith)
