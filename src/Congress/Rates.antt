-- ===== src/Congress/Rates.antt =====
-- The counts and the rates of metrique-writer/src/sample/congress.rs.
use metrique.Prelude.{
  ℕ, ◌+◌, ◌≡◌, refl, ap, ◌∙◌, Bool, true, false, List, [], ◌∷◌, ltb, if◌then◌else◌, arith,
  Bool-cases, inl, inr,
}
use metrique.Emf.Entry.{Dimensions as Group, dimension_set_key as sorted, equivalent}
use metrique.Congress.{
  Float32, u32, GroupState, CongressSample, new_group, record_observation, update_and_retain,
  retain, size_of, seat, set_rates, update_rates, observe, refresh, sample_rate, format, build, run,
}

module _ (float : Float32) where
  open float use {F, of_nat}

  -- How often the groups have been observed since the last update.
  unfoldable pub observed : List (Group × GroupState float) → ℕ
  observed [] = 0
  observed ((key, g) ∷ groups) = g.current_observed + observed groups

  observed-retain : (groups : List (Group × GroupState float)) → observed (retain float groups) ≡ 0
  unfolding observed retain update_and_retain
  observed-retain [] = refl
  observed-retain ((key, g) ∷ groups) = ground (arith, observed-retain groups)

  observed-seat :
      (flat senate : F) (groups : List (Group × GroupState float)) (size : F)
      → observed (seat float flat senate size groups).1 ≡ observed groups
  unfolding observed seat
  observed-seat flat senate [] size = refl
  observed-seat flat senate ((key, g) ∷ groups) size =
      ap (λ n. g.current_observed + n)
        (observed-seat flat senate groups
          (float.add size (size_of float flat senate g.average_observed.value)))

  observed-set_rates :
      (rate : GroupState float → F) (groups : List (Group × GroupState float))
      → observed (set_rates float rate groups) ≡ observed groups
  unfolding observed set_rates
  observed-set_rates rate [] = refl
  observed-set_rates rate ((key, g) ∷ groups) =
      ap (λ n. g.current_observed + n) (observed-set_rates rate groups)

  observed-update_rates : (s : CongressSample float) → observed (update_rates float s).groups ≡ 0
  unfolding update_rates
  observed-update_rates s =
      observed-set_rates _ _
      ∙ observed-seat _ _ (retain float s.groups) _
      ∙ observed-retain s.groups

  observed-observe :
      (group : Group) (groups : List (Group × GroupState float))
      → u32 (observed (observe float group groups).1) ≡ u32 (observed groups + 1)
  unfolding observed observe record_observation new_group
  observed-observe group [] = refl
  observed-observe group ((key, g) ∷ groups) = elim (Bool-cases (equivalent group key)) [
    | inl same ↦ rw same (omega arith)
    | inr other ↦ rw other (omega (arith, observed-observe group groups))
  ]

  -- The count that the rates are computed from is that of the groups.
  abbrev pub IsCounted : CongressSample float → Type 0
  IsCounted s = s.current_observed ≡ u32 (observed s.groups)

  updated-IsCounted : (s : CongressSample float) → IsCounted (update_rates float s)
  updated-IsCounted s = rw (observed-update_rates s) (unfold update_rates in refl)

  refresh-IsCounted :
      (now : ℕ) (s : CongressSample float) → IsCounted s → IsCounted (refresh float now s)
  unfolding refresh
  refresh-IsCounted now s h =
      let next = record s { next_interval_start = now + s.interval } in
      elim (ltb s.next_interval_start now)
        as (λ b. IsCounted (if b then update_rates float next else s)) [
          | true ↦ updated-IsCounted next
          | false ↦ h
        ]

  sample_rate-IsCounted :
      (group : Group) (now : ℕ) (s : CongressSample float)
      → IsCounted s
      → IsCounted (sample_rate float group now s).1
  unfolding sample_rate
  sample_rate-IsCounted group now s h =
      let k = refresh-IsCounted now s h in
      omega (arith, k, observed-observe group (refresh float now s).groups)

  format-IsCounted :
      (entry : Group) (now : ℕ) (drawn : F) (s : CongressSample float)
      → IsCounted s
      → IsCounted (format float entry now drawn s).1
  unfolding format
  format-IsCounted entry now drawn s h =
      ground (arith, h, sample_rate-IsCounted (sorted entry) now s h)

  pub run-IsCounted :
      (entries : List (Group × ℕ × F)) (s : CongressSample float)
      → IsCounted s
      → IsCounted (run float entries s).1
  unfolding run
  run-IsCounted [] s h = h
  run-IsCounted ((entry, now, drawn) ∷ entries) s h =
      run-IsCounted entries (format float entry now drawn s).1
        (format-IsCounted entry now drawn s h)

  -- After any entries, at any times and whatever is drawn for them, the number that the rates are
  -- next computed from is, modulo 2 ^ 32, the sum of how often the groups have been observed since
  -- the last update.
  pub run-build-IsCounted :
      (interval target_observed : ℕ) (validate_groups : Bool) (now : ℕ)
      (entries : List (Group × ℕ × F))
      → IsCounted (run float entries (build float interval target_observed validate_groups now)).1
  unfolding build observed
  run-build-IsCounted interval target_observed validate_groups now entries =
      run-IsCounted entries (build float interval target_observed validate_groups now) refl
