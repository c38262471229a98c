-- ===== src/Emf/Entry/Unique.antt =====
-- Names that are written twice.
use text.Mathlib.Text.{◌==◌ as str_eq}
use metrique.Prelude.{
  ℕ, ◌+◌, ◌≤◌, ◌≡◌, refl, ap, ◌∙◌, Bool, true, false, not, ◌&&◌, ◌||◌, none, some, List, [], ◌∷◌,
  ◌++◌, concat, append-nil, All, total, String, arith, if◌then◌else◌,
}
use metrique.Emf.Entry.{
  multiple_timestamps, dimensions_after_metric, dimensions_set_twice, dimensions_empty, name_empty,
  name_aws, ValidationError, EntryWriter, lookup, invalid, write_timestamp, validate_name,
  validate_string,
}
use metrique.Emf.Entry.Calls.{
  Value, string_value, measurement, failure, nothing, Call, timestamp, value, entry_dimensions,
  allow_split_entries, allow_unroutable_entries, write_measurement, write_text, write_value,
  add_dimensions, set_dimensions, call, calls, some_keys, build_errors, missing, finish, EmfBuilder,
  start, format,
}
use metrique.Emf.Entry.Sought.{IsRoutable, text_of}
use metrique.Emf.Entry.Counts.{
  plain_of, used_one, Counts, Counts-same, Counts-weaken, Counts-trans, invalid-Counts,
  validate_string-Counts,
}
use metrique.Emf.Entry.Measured.{write_measurement-Counts, add_dimensions-Counts}

build_errors-none : (es more : List ValidationError) → build_errors (es ++ more) ≡ none → es ≡ []
build_errors-none [] more h = refl
build_errors-none (e ∷ es) more h = absurd (ground (arith, h))

module _ (n : String) where
  write_value-Counts :
      (name : String) (v : Value) (w : EntryWriter)
      → w.validations.skip_validate_unique ≡ false
      → w.is_allow_unroutable_entries ≡ false
      → Counts n (text_of n (value name v) + plain_of n (value name v)) w (write_value name v w)
  unfolding write_value write_text
  write_value-Counts name string_value w unique routable =
      let k : ℕ = if str_eq name n then 1 else 0 in
      let checked : Counts n (k + 0) w (validate_string name w) =
        Counts-weaken n (k + 0) k w (validate_string name w) (omega arith)
          (validate_string-Counts n name w) in
      rw (ap (λ b. if not b then validate_string name w else w) unique) checked
  write_value-Counts name (measurement dimensions) w unique routable =
      Counts-weaken n (0 + plain_of n (value name (measurement dimensions)))
        (plain_of n (value name (measurement dimensions))) w (write_measurement name dimensions w)
        (omega arith) (write_measurement-Counts n name dimensions w unique routable)
  write_value-Counts name (failure reason) w unique routable =
      invalid-Counts n (0 + 0) (some name) reason w
  write_value-Counts name nothing w unique routable =
      Counts-weaken n (0 + 0) 0 w w (omega arith) (Counts-same n w)

  -- The value is written when the name is valid.
  abbrev after_name : String → Value → Bool × EntryWriter → EntryWriter
  after_name name v (valid, w) = if valid then write_value name v w else w

  named-Counts :
      (name : String) (v : Value) (w : EntryWriter)
      → w.validations.skip_validate_unique ≡ false
      → w.is_allow_unroutable_entries ≡ false
      → Counts n
          (text_of n (value name v) + plain_of n (value name v))
          w
          (after_name name v (validate_name name w))
  unfolding validate_name
  named-Counts name v w unique routable =
      let k = text_of n (value name v) + plain_of n (value name v) in
      let fine = write_value-Counts name v w unique routable in
      elim w.validations.skip_validate_names
        as (λ a. Counts n k w (
          after_name name v (
            if a
            then (true, w)
            else if str_eq name ""
            then (false, invalid (some "") name_empty w)
            else if str_eq name "_aws"
            then (false, invalid (some "_aws") name_aws w)
            else (true, w)))) [
              | true ↦ fine
              | false ↦
                  elim (str_eq name "")
                    as (λ b. Counts n k w (
                      after_name name v (
                        if b
                        then (false, invalid (some "") name_empty w)
                        else if str_eq name "_aws"
                        then (false, invalid (some "_aws") name_aws w)
                        else (true, w)))) [
                          | true ↦ invalid-Counts n k (some "") name_empty w
                          | false ↦
                              elim (str_eq name "_aws")
                                as (λ c. Counts n k w (
                                  after_name name v (
                                    if c
                                    then (false, invalid (some "_aws") name_aws w)
                                    else (true, w)))) [
                                      | true ↦ invalid-Counts n k (some "_aws") name_aws w
                                      | false ↦ fine
                                    ]
                        ]
            ]

  -- The calls that write no name.
  timestamp-Counts : (t : ℕ) (w : EntryWriter) → Counts n (0 + 0) w (write_timestamp t w)
  unfolding write_timestamp
  timestamp-Counts t w =
      let set = record w { timestamp = some t } in
      let kept : Counts n 0 w set = record {
        clean = λ h. h;
        counted = λ h. omega arith;
        unique = refl;
        routable = refl;
      } in
      elim w.timestamp
        as (λ o.
          Counts n 0 w
            (elim o [ none ↦ set | some before ↦ invalid none multiple_timestamps set ])) [
              | none ↦ kept
              | some before ↦
                  Counts-trans n 0 0 w set (invalid none multiple_timestamps set) kept
                    (invalid-Counts n 0 none multiple_timestamps set)
            ]

  set_twice-Counts :
      (late twice : Bool) (w last : EntryWriter)
      → Counts n 0 w last
      → Counts n 0 w (
          if late
          then invalid none dimensions_after_metric w
          else if twice
          then invalid none dimensions_set_twice w
          else last)
  set_twice-Counts true twice w last h = invalid-Counts n 0 none dimensions_after_metric w
  set_twice-Counts false true w last h = invalid-Counts n 0 none dimensions_set_twice w
  set_twice-Counts false false w last h = h

  flagged-Counts :
      (w v : EntryWriter) → Counts n 0 w v → Counts n 0 w (record v { entry_dimensions = true })
  flagged-Counts w v h = record {
    clean = h.clean;
    counted = h.counted;
    unique = h.unique;
    routable = h.routable;
  }

  dimensions-Counts :
      (dim_sets : List (List String)) (w : EntryWriter)
      → Counts n (0 + 0) w (set_dimensions dim_sets w)
  unfolding set_dimensions
  dimensions-Counts [] w =
      set_twice-Counts (some_keys w.dimension_set_map) w.entry_dimensions w
        (invalid none dimensions_empty w) (invalid-Counts n 0 none dimensions_empty w)
  dimensions-Counts (dims ∷ more) w =
      let check =
        not w.validations.skip_validate_unique
        || not w.validations.skip_validate_dimensions_exist in
      let checked = if check then add_dimensions (concat (dims ∷ more)) w else w in
      set_twice-Counts (some_keys w.dimension_set_map) w.entry_dimensions w
        (record checked { entry_dimensions = true })
        (flagged-Counts w checked
          (elim check
            as (λ b. Counts n 0 w (if b then add_dimensions (concat (dims ∷ more)) w else w)) [
              | true ↦ add_dimensions-Counts n (concat (dims ∷ more)) w
              | false ↦ Counts-same n w
            ]))

  call-Counts :
      (c : Call) (w : EntryWriter)
      → IsRoutable c
      → w.validations.skip_validate_unique ≡ false
      → w.is_allow_unroutable_entries ≡ false
      → Counts n (text_of n c + plain_of n c) w (call c w)
  unfolding call
  call-Counts (timestamp t) w r unique routable = timestamp-Counts t w
  call-Counts (value name v) w r unique routable = named-Counts name v w unique routable
  call-Counts (entry_dimensions dim_sets) w r unique routable = dimensions-Counts dim_sets w
  call-Counts allow_split_entries w r unique routable = record {
    clean = λ h. h;
    counted = λ h. omega arith;
    unique = refl;
    routable = refl;
  }
  call-Counts allow_unroutable_entries w r unique routable = absurd r

  calls-Counts :
      (entry : List Call) (w : EntryWriter)
      → All IsRoutable entry
      → w.validations.skip_validate_unique ≡ false
      → w.is_allow_unroutable_entries ≡ false
      → Counts n (total (λ c. text_of n c + plain_of n c) entry) w (calls entry w)
  unfolding calls
  calls-Counts [] w r unique routable = Counts-same n w
  calls-Counts (c ∷ entry) w r unique routable =
      let first = call-Counts c w r.0 unique routable in
      Counts-trans n (text_of n c + plain_of n c) (total (λ c. text_of n c + plain_of n c) entry) w
        (call c w) (calls entry (call c w)) first
        (calls-Counts entry (call c w) r.1 (first.unique ∙ unique) (first.routable ∙ routable))

  finish-none : (w : EntryWriter) → finish w ≡ none → w.error ≡ []
  unfolding finish
  finish-none w h =
      elim (not w.validations.skip_validate_dimensions_exist && not w.is_allow_unroutable_entries)
          as (λ b.
            build_errors (if b then w.error ++ missing w.validation_map else w.error) ≡ none
            → w.error ≡ []) [
              | true ↦ build_errors-none w.error (missing w.validation_map)
              | false ↦ λ e. build_errors-none w.error [] (rw (append-nil w.error) e)
            ]
        h

  -- Where duplicates are looked for, an entry that is accepted, and that may not be unroutable, has
  -- written no name twice as a string, a list or a metric without dimensions.
  pub format_unique :
      (b : EmfBuilder) (entry : List Call)
      → b.validation.skip_validate_unique ≡ false
      → All IsRoutable entry
      → format b entry ≡ none
      → total (λ c. text_of n c + plain_of n c) entry ≤ 1
  unfolding format start
  format_unique b entry unique r e =
      let counts = calls-Counts entry (start b) r unique refl in
      omega (
        arith,
        counts.counted (finish-none (calls entry (start b)) e),
        used_one (lookup n (calls entry (start b)).validation_map),
      )
