-- ===== src/Emf/Entry/Sought.antt =====
-- Dimensions that are yet to be found stay so until a string is written for them.
use text.Mathlib.Text.{◌==◌ as str_eq}
use text.Mathlib.TextEquality.{eq_iff}
use metrique.Prelude.{
  Option, none, ℕ, ◌≡◌, refl, sym, ap, ◌∙◌, Bool, true, false, not, ◌&&◌, some, List, [], ◌∷◌, ◌++◌,
  concat, All, total, String, Bool-cases, ◌⊎◌, inl, inr, append_assoc, arith, if◌then◌else◌,
}
use metrique.Emf.Entry.{
  LineKind, Reason, holds, metric, string, unfound_dimension, duplicate_field, metric_in_dimension,
  missing_dimension, ValidationError, Dimensions, EntryWriter, lookup, invalid, set_line,
  write_timestamp, validate_name, validate_string, validate_metric,
}
use metrique.Emf.Entry.Calls.{
  Value, string_value, measurement, failure, nothing, Call, timestamp, value, entry_dimensions,
  allow_split_entries, allow_unroutable_entries, metric_index, check_split, write_measurement,
  write_text, write_value, add_dimension, add_dimensions, set_dimensions, call, calls, missing,
  build_errors, finish, EmfBuilder, start, format,
}
use metrique.Emf.Entry.Names.{lookup-set_kind, missing-lookup, lookup-base_map}

abbrev pub IsRoutable : Call → Type 0
IsRoutable allow_unroutable_entries = ⊥
IsRoutable c = Unit

build_errors-append :
    (es : List ValidationError) (e : ValidationError) (more : List ValidationError)
    → build_errors (es ++ e ∷ more) ≡ some (es ++ e ∷ more)
build_errors-append [] e more = refl
build_errors-append (d ∷ es) e more = refl

-- How often a call writes a name as a string or a list.
abbrev pub text_of : String → Call → ℕ
text_of name (value other string_value) = if str_eq other name then 1 else 0
text_of name c = 0

-- That a dimension is yet to be found, in a writer that looks for dimensions.
pub record IsSought (dim : String) (skip : Bool) (w : EntryWriter) : Type 0 where
  pub unique : w.validations.skip_validate_unique ≡ skip
  pub found : lookup dim w.validation_map ≡ some unfound_dimension
  pub exist : w.validations.skip_validate_dimensions_exist ≡ false
  pub routable : w.is_allow_unroutable_entries ≡ false

module _ (dim : String) (skip : Bool) where
  add_dimension-IsSought :
      (other : String) (w : EntryWriter)
      → IsSought dim skip w
      → IsSought dim skip (add_dimension other w)
  unfolding add_dimension invalid set_line
  add_dimension-IsSought other w h =
      ground
        (arith, h, eq_iff other dim, lookup-set_kind dim other unfound_dimension w.validation_map)

  add_dimensions-IsSought :
      (dims : List String) (w : EntryWriter)
      → IsSought dim skip w
      → IsSought dim skip (add_dimensions dims w)
  unfolding add_dimensions
  add_dimensions-IsSought [] w h = h
  add_dimensions-IsSought (other ∷ dims) w h =
      add_dimensions-IsSought dims (add_dimension other w) (add_dimension-IsSought other w h)

  validate_string-IsSought :
      (name : String) (w : EntryWriter)
      → str_eq name dim ≡ false
      → IsSought dim skip w
      → IsSought dim skip (validate_string name w)
  unfolding validate_string invalid set_line
  validate_string-IsSought name w ne h =
      ground (arith, h, ne, lookup-set_kind dim name string w.validation_map)

  set_line-IsSought :
      (name : String) (kind : LineKind) (w : EntryWriter)
      → str_eq name dim ≡ false
      → IsSought dim skip w
      → IsSought dim skip (set_line name kind w)
  unfolding set_line
  set_line-IsSought name kind w ne h =
      ground (arith, h, ne, lookup-set_kind dim name kind w.validation_map)

  invalid-IsSought :
      (field : Option String) (reason : Reason) (w : EntryWriter)
      → IsSought dim skip w
      → IsSought dim skip (invalid field reason w)
  unfolding invalid
  invalid-IsSought field reason w h = ground (arith, h)

  validate_other :
      (name : String) (index : ℕ) (w : EntryWriter)
      → str_eq name dim ≡ false
      → IsSought dim skip w
      → IsSought dim skip (validate_metric name index w)
  unfolding validate_metric
  validate_other name index w ne h =
      elim (lookup name w.validation_map)
        as (λ o. IsSought dim skip (elim o [
          | none ↦ set_line name (metric (index ∷ [])) w
          | some (metric indexes) ↦
              if holds index indexes
              then invalid (some name) duplicate_field w
              else set_line name (metric (index ∷ indexes)) w
          | some string ↦ invalid (some name) duplicate_field w
          | some unfound_dimension ↦ invalid (some name) metric_in_dimension w
        ])) [
          | none ↦ set_line-IsSought name (metric (index ∷ [])) w ne h
          | some (metric indexes) ↦
              elim (holds index indexes)
                as (λ held. IsSought dim skip (
                  if held
                  then invalid (some name) duplicate_field w
                  else set_line name (metric (index ∷ indexes)) w)) [
                    | true ↦ invalid-IsSought (some name) duplicate_field w h
                    | false ↦ set_line-IsSought name (metric (index ∷ indexes)) w ne h
                  ]
          | some string ↦ invalid-IsSought (some name) duplicate_field w h
          | some unfound_dimension ↦ invalid-IsSought (some name) metric_in_dimension w h
        ]

  validate_metric-IsSought :
      (name : String) (index : ℕ) (w : EntryWriter)
      → IsSought dim skip w
      → IsSought dim skip (validate_metric name index w)
  unfolding validate_metric invalid set_line
  validate_metric-IsSought name index w h = elim (Bool-cases (str_eq name dim)) [
    | inl e ↦
        let found : lookup name w.validation_map ≡ some unfound_dimension =
          ap (λ k. lookup k w.validation_map) ((eq_iff name dim).0 e) ∙ h.found in
        ground (arith, h, found)
    | inr ne ↦ validate_other name index w ne h
  ]

  metric_index-IsSought :
      (dimensions : Dimensions) (w : EntryWriter)
      → IsSought dim skip w
      → IsSought dim skip (metric_index dimensions w).1
  unfolding metric_index
  metric_index-IsSought dimensions w h = ground (arith, h)

  check_split-IsSought :
      (name : String) (dimensions : Dimensions) (w : EntryWriter)
      → IsSought dim skip w
      → IsSought dim skip (check_split name dimensions w)
  unfolding check_split invalid
  check_split-IsSought name dimensions w h = ground (arith, h)

  write_measurement-IsSought :
      (name : String) (dimensions : Dimensions) (w : EntryWriter)
      → IsSought dim skip w
      → IsSought dim skip (write_measurement name dimensions w)
  unfolding write_measurement
  write_measurement-IsSought name dimensions w h =
      let split = check_split-IsSought name dimensions w h in
      let indexed = metric_index-IsSought dimensions (check_split name dimensions w) split in
      elim (not w.validations.skip_validate_unique && not w.is_allow_unroutable_entries)
        as (λ check. IsSought dim skip (
          if check
          then validate_metric name (metric_index dimensions (check_split name dimensions w)).0
              (metric_index dimensions (check_split name dimensions w)).1
          else (metric_index dimensions (check_split name dimensions w)).1)) [
            | true ↦
                validate_metric-IsSought name
                  (metric_index dimensions (check_split name dimensions w)).0
                  (metric_index dimensions (check_split name dimensions w)).1 indexed
            | false ↦ indexed
          ]

  validate_name-IsSought :
      (name : String) (w : EntryWriter)
      → IsSought dim skip w
      → IsSought dim skip (validate_name name w).1
  unfolding validate_name invalid
  validate_name-IsSought name w h = ground (arith, h)

  write_value-IsSought :
      (name : String) (v : Value) (w : EntryWriter)
      → (text_of dim (value name v) ≡ 0) ⊎ (skip ≡ true)
      → IsSought dim skip w
      → IsSought dim skip (write_value name v w)
  unfolding write_value write_text invalid
  write_value-IsSought name string_value w (inr t) h = ground (arith, h, t)
  write_value-IsSought name string_value w (inl z) h =
      let ne : str_eq name dim ≡ false = ground (arith, z) in
      ground (arith, h, validate_string-IsSought name w ne h)
  write_value-IsSought name (measurement dimensions) w z h =
      write_measurement-IsSought name dimensions w h
  write_value-IsSought name (failure reason) w z h = ground (arith, h)
  write_value-IsSought name nothing w z h = h

  call-IsSought :
      (c : Call) (w : EntryWriter)
      → IsRoutable c
      → (text_of dim c ≡ 0) ⊎ (skip ≡ true)
      → IsSought dim skip w
      → IsSought dim skip (call c w)
  unfolding call write_timestamp invalid set_dimensions
  call-IsSought (timestamp t) w r z h = ground (arith, h)
  call-IsSought (value name v) w r z h =
      let named = validate_name-IsSought name w h in
      elim ((validate_name name w).0)
        as (λ valid. IsSought dim skip (
          if valid
          then write_value name v (validate_name name w).1
          else (validate_name name w).1)) [
            | true ↦ write_value-IsSought name v (validate_name name w).1 z named
            | false ↦ named
          ]
  call-IsSought (entry_dimensions []) w r z h = ground (arith, h)
  call-IsSought (entry_dimensions (dims ∷ more)) w r z h =
      ground (arith, h, add_dimensions-IsSought (concat (dims ∷ more)) w h)
  call-IsSought allow_split_entries w r z h = ground (arith, h)
  call-IsSought allow_unroutable_entries w r z h = absurd r

  -- What is sought to the end is reported.
  calls-IsSought :
      (entry : List Call) (w : EntryWriter)
      → All IsRoutable entry
      → (total (text_of dim) entry ≡ 0) ⊎ (skip ≡ true)
      → IsSought dim skip w
      → IsSought dim skip (calls entry w)
  unfolding calls
  calls-IsSought [] w r z h = h
  calls-IsSought (c ∷ entry) w r (inr t) h =
      calls-IsSought entry (call c w) r.1 (inr t) (call-IsSought c w r.0 (inr t) h)
  calls-IsSought (c ∷ entry) w r (inl z) h =
      calls-IsSought entry (call c w) r.1 (inl (omega (arith, z)))
        (call-IsSought c w r.0 (inl (omega (arith, z))) h)

  reported_missing :
      (w : EntryWriter) (before after : List ValidationError)
      → missing w.validation_map ≡ before ++ (some dim, missing_dimension) ∷ after
      → build_errors (w.error ++ missing w.validation_map)
        ≡ some (w.error ++ before ++ (some dim, missing_dimension) ∷ after)
  reported_missing w before after at =
      rw (at, sym (append_assoc w.error before ((some dim, missing_dimension) ∷ after)))
        (build_errors-append (w.error ++ before) (some dim, missing_dimension) after)

  finish-IsSought :
      (w : EntryWriter)
      → IsSought dim skip w
      → (before after : List ValidationError) × (finish w
          ≡ some (before ++ (some dim, missing_dimension) ∷ after))
  unfolding finish
  finish-IsSought w h =
      let (before, after, at) = missing-lookup dim w.validation_map h.found in
      (w.error ++ before, after, rw (h.exist, h.routable) (reported_missing w before after at))

  -- An entry that writes no string for a default dimension, or one by which no dimension is found,
  -- is refused.
  pub format_unfound :
      (b : EmfBuilder) (before after : List String) (entry : List Call)
      → concat b.default_dimensions ≡ before ++ dim ∷ after
      → b.validation.skip_validate_unique ≡ skip
      → b.validation.skip_validate_dimensions_exist ≡ false
      → All IsRoutable entry
      → (total (text_of dim) entry ≡ 0) ⊎ (skip ≡ true)
      → (errors more : List ValidationError) × (format b entry
          ≡ some (errors ++ (some dim, missing_dimension) ∷ more))
  unfolding format start
  format_unfound b before after entry at unique exist r z =
      finish-IsSought (calls entry (start b)) (
        calls-IsSought entry (start b) r z (record {
          found = rw (exist, at) (lookup-base_map before after dim []);
          unique = unique;
          exist = exist;
          routable = refl;
        }))
