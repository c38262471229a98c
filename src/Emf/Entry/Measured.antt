-- ===== src/Emf/Entry/Measured.antt =====
-- How a metric and dimensions count towards a name's line.
use text.Mathlib.Text.{◌==◌ as str_eq}
use metrique.Prelude.{
  ℕ, ◌+◌, ◌≤◌, ◌≡◌, refl, sym, ap, ap₂, ◌∙◌, true, false, not, ◌&&◌, ◌||◌, Option, none, some, List,
  [], ◌∷◌, ◌==◌, ==_iff, String, Bool-cases, inl, inr, arith, if◌then◌else◌,
}
use metrique.Emf.Entry.{
  LineKind, metric, string, unfound_dimension, duplicate_field, metric_in_dimension,
  dimensions_without_split, index_from, dimension_set_key, Dimensions, EntryWriter, lookup, invalid,
  set_line, validate_metric, is_none, holds,
}
use metrique.Emf.Entry.Calls.{
  measurement, value, metric_index, check_split, write_measurement, add_dimension, add_dimensions,
}
use metrique.Emf.Entry.Counts.{
  plain_of, used, Counts, Counts-same, Counts-weaken, Counts-trans, invalid-Counts, set_line-Counts,
}

module _ (n : String) where
  abbrev one_plain : ℕ → ℕ
  one_plain index = if index == 0 then 1 else 0

  new_index :
      (index : ℕ) (js : List ℕ)
      → holds index js ≡ false
      → used (some (metric js)) + one_plain index ≤ used (some (metric (index ∷ js)))
  new_index index js h = elim (Bool-cases (index == 0)) [
    | inl t ↦
        let zeroth : holds 0 js ≡ false = ap (λ k. holds k js) (sym ((==_iff index 0).0 t)) ∙ h in
        rw ((==_iff index 0).0 t, zeroth) (omega arith)
    | inr f ↦ ground (arith, f)
  ]

  metric-Counts :
      (name : String) (index : ℕ) (w : EntryWriter) (o : Option LineKind)
      → lookup name w.validation_map ≡ o
      → Counts n (if str_eq name n then one_plain index else 0) w (elim o [
        | none ↦ set_line name (metric (index ∷ [])) w
        | some (metric indexes) ↦
            if holds index indexes
            then invalid (some name) duplicate_field w
            else set_line name (metric (index ∷ indexes)) w
        | some string ↦ invalid (some name) duplicate_field w
        | some unfound_dimension ↦ invalid (some name) metric_in_dimension w
      ])
  metric-Counts name index w none e =
      set_line-Counts n name (metric (index ∷ [])) (one_plain index) w
        (rw e (omega (arith, new_index index [] refl)))
  metric-Counts name index w (some (metric indexes)) e = elim (Bool-cases (holds index indexes)) [
    | inl t ↦ rw t (
        invalid-Counts n (if str_eq name n then one_plain index else 0) (some name) duplicate_field
          w)
    | inr f ↦ rw f (
        set_line-Counts n name (metric (index ∷ indexes)) (one_plain index) w
          (rw e (new_index index indexes f)))
  ]
  metric-Counts name index w (some string) e =
      invalid-Counts n (if str_eq name n then one_plain index else 0) (some name) duplicate_field w
  metric-Counts name index w (some unfound_dimension) e =
      invalid-Counts n (if str_eq name n then one_plain index else 0) (some name)
        metric_in_dimension w

  validate_metric-Counts :
      (name : String) (index : ℕ) (w : EntryWriter)
      → Counts n (if str_eq name n then one_plain index else 0) w (validate_metric name index w)
  unfolding validate_metric
  validate_metric-Counts name index w =
      metric-Counts name index w (lookup name w.validation_map) refl

  metric_index-Counts :
      (dimensions : Dimensions) (w : EntryWriter) → Counts n 0 w (metric_index dimensions w).1
  unfolding metric_index
  metric_index-Counts dimensions w =
      elim (w.allow_ignored_dimensions || is_none dimensions)
        as (λ b.
          Counts n 0 w
            (if◌then◌else◌ {A = ℕ × EntryWriter} b (0, w)
              (let (index, keys) =
                  index_from 1 (dimension_set_key dimensions) w.dimension_set_map in
                (index, record w { dimension_set_map = keys }))).1) [
                  | true ↦ Counts-same n w
                  | false ↦ record {
                    clean = λ h. h;
                    counted = λ h. omega arith;
                    unique = refl;
                    routable = refl;
                  }
                ]

  metric_index_plain :
      (dimensions : Dimensions) (w : EntryWriter)
      → is_none dimensions ≡ true
      → (metric_index dimensions w).0 ≡ 0
  unfolding metric_index
  metric_index_plain dimensions w h = ground (arith, h)

  check_split-Counts :
      (name : String) (dimensions : Dimensions) (w : EntryWriter)
      → Counts n 0 w (check_split name dimensions w)
  unfolding check_split
  check_split-Counts name dimensions w =
      elim (not (w.allow_ignored_dimensions || is_none dimensions) && not w.allow_split_entries)
        as (λ b. Counts n 0 w (if b then invalid (some name) dimensions_without_split w else w)) [
          | true ↦ invalid-Counts n 0 (some name) dimensions_without_split w
          | false ↦ Counts-same n w
        ]

  write_measurement-validate_metric :
      (name : String) (dimensions : Dimensions) (w : EntryWriter)
      → w.validations.skip_validate_unique ≡ false
      → w.is_allow_unroutable_entries ≡ false
      → write_measurement name dimensions w
        ≡ validate_metric name
            (metric_index dimensions (check_split name dimensions w)).0
            (metric_index dimensions (check_split name dimensions w)).1
  unfolding write_measurement
  write_measurement-validate_metric name dimensions w unique routable =
      let (index, w') = metric_index dimensions (check_split name dimensions w) in
      ap₂ (λ a b. if not a && not b then validate_metric name index w' else w') unique routable

  plain_le :
      (name : String) (dimensions : Dimensions) (index : ℕ)
      → (is_none dimensions ≡ true → index ≡ 0)
      → plain_of n (value name (measurement dimensions))
        ≤ 0 + 0 + (if str_eq name n then one_plain index else 0)
  plain_le name dimensions index h = elim (Bool-cases (is_none dimensions)) [
    | inl t ↦ rw (t, h t) (omega arith)
    | inr f ↦ rw f (omega arith)
  ]

  -- Where duplicates are looked for.
  pub write_measurement-Counts :
      (name : String) (dimensions : Dimensions) (w : EntryWriter)
      → w.validations.skip_validate_unique ≡ false
      → w.is_allow_unroutable_entries ≡ false
      → Counts n
          (plain_of n (value name (measurement dimensions)))
          w
          (write_measurement name dimensions w)
  write_measurement-Counts name dimensions w unique routable =
      let split = check_split name dimensions w in
      let indexed = (metric_index dimensions split).1 in
      let index = (metric_index dimensions split).0 in
      let k = if str_eq name n then one_plain index else 0 in
      rw (write_measurement-validate_metric name dimensions w unique routable) (
        Counts-weaken n (plain_of n (value name (measurement dimensions))) (0 + 0 + k) w
          (validate_metric name index indexed)
          (plain_le name dimensions index (metric_index_plain dimensions split))
          (Counts-trans n (0 + 0) k w indexed (validate_metric name index indexed)
            (Counts-trans n 0 0 w split indexed (check_split-Counts name dimensions w)
              (metric_index-Counts dimensions split))
            (validate_metric-Counts name index indexed)))

  dimension-Counts :
      (dim : String) (w : EntryWriter) (o : Option LineKind)
      → lookup dim w.validation_map ≡ o
      → Counts n 0 w (elim o [
        | none ↦ set_line dim unfound_dimension w
        | some (metric indexes) ↦
            if not w.validations.skip_validate_unique
            then invalid (some dim) duplicate_field w
            else w
        | some string ↦ w
        | some unfound_dimension ↦ w
      ])
  dimension-Counts dim w none e =
      Counts-weaken n 0 (if str_eq dim n then 0 else 0) w (set_line dim unfound_dimension w)
        (omega arith) (set_line-Counts n dim unfound_dimension 0 w (rw e (omega arith)))
  dimension-Counts dim w (some (metric indexes)) e =
      elim (not w.validations.skip_validate_unique)
        as (λ b. Counts n 0 w (if b then invalid (some dim) duplicate_field w else w)) [
          | true ↦ invalid-Counts n 0 (some dim) duplicate_field w
          | false ↦ Counts-same n w
        ]
  dimension-Counts dim w (some string) e = Counts-same n w
  dimension-Counts dim w (some unfound_dimension) e = Counts-same n w

  add_dimension-Counts : (dim : String) (w : EntryWriter) → Counts n 0 w (add_dimension dim w)
  unfolding add_dimension
  add_dimension-Counts dim w = dimension-Counts dim w (lookup dim w.validation_map) refl

  pub add_dimensions-Counts :
      (dims : List String) (w : EntryWriter) → Counts n 0 w (add_dimensions dims w)
  unfolding add_dimensions
  add_dimensions-Counts [] w = Counts-same n w
  add_dimensions-Counts (dim ∷ dims) w =
      Counts-weaken n 0 (0 + 0) w (add_dimensions dims (add_dimension dim w)) (omega arith) (
        Counts-trans n 0 0 w (add_dimension dim w) (add_dimensions dims (add_dimension dim w))
          (add_dimension-Counts dim w) (add_dimensions-Counts dims (add_dimension dim w)))
