-- ===== src/Emf/Values.antt =====
-- The text that `write_metric` writes, against the list of the observations that are not skipped.
use metrique.Prelude.{
  ℕ, ◌≡◌, refl, ap, ◌∙◌, Bool, true, false, Option, none, some, List, [], ◌∷◌, ◌++◌, map, concat,
  Option-cases, inl, inr, if◌then◌else◌,
}
use metrique.Histogram.{Float, Observation, unsigned, floating, repeated}
use metrique.Emf.Output.{Bytes}
use metrique.Emf.Buf.{
  PrefixedStringBuf, IsValid, push_raw_str, push_raw_str-IsValid, truncate-push_raw_str,
  push_raw_str_twice, push_raw_str_nil,
}
use metrique.Emf.Metric.{
  Printer, saturating_mul, unwrap_or, strip_dot_zero, clamp_to_finite, write_float, mean,
  write_number, write_observation, write_each,
}

-- Texts with commas between them, and with one before each.
abbrev pub each_after_comma : List Bytes → Bytes
each_after_comma texts = concat (map (λ text. b',' ∷ text) texts)

abbrev pub joined : List Bytes → Bytes
joined [] = []
joined (text ∷ texts) = text ++ each_after_comma texts

module _ (float : Float) (printer : Printer float) where
  open float use {F}
  open printer use {itoa, dtoa, json}

  -- A number's text, if it is finite once clamped.
  abbrev pub number_text : F → Option Bytes
  unfolding clamp_to_finite
  number_text v = elim (clamp_to_finite float printer v) [
    | none ↦ none
    | some v ↦ some (strip_dot_zero (dtoa v))
  ]

  -- The texts of an observation's value and its count, unless it is skipped.
  abbrev counted : Option Bytes → ℕ → Option (Bytes × Bytes)
  counted none count = none
  counted (some text) count = some (text, itoa count)

  abbrev reading : Option ℕ → Observation float → Option (Bytes × Bytes)
  reading multiplicity (unsigned v) = counted (some (itoa v)) (unwrap_or 1 multiplicity)
  reading multiplicity (floating v) = counted (number_text v) (unwrap_or 1 multiplicity)
  reading multiplicity (repeated total occurrences) =
      counted (number_text (mean float printer total occurrences))
        (saturating_mul occurrences (unwrap_or 1 multiplicity))

  abbrev with_reading : Option (Bytes × Bytes) → List (Bytes × Bytes) → List (Bytes × Bytes)
  with_reading none texts = texts
  with_reading (some text) texts = text ∷ texts

  abbrev pub readings : Option ℕ → List (Observation float) → List (Bytes × Bytes)
  readings multiplicity [] = []
  readings multiplicity (observation ∷ distribution) =
      with_reading (reading multiplicity observation) (readings multiplicity distribution)

  abbrev written :
      Option (Bytes × Bytes)
      → PrefixedStringBuf
      → PrefixedStringBuf
      → Bool × PrefixedStringBuf × PrefixedStringBuf
  written none buf counts = (false, buf, counts)
  written (some (text, count)) buf counts = (true, push_raw_str text buf, push_raw_str count counts)

  write_number_lem :
      (v : F) (count : ℕ) (buf counts : PrefixedStringBuf)
      → write_number float printer v count buf counts
        ≡ written (counted (number_text v) count) buf counts
  unfolding write_number write_float
  write_number_lem v count buf counts =
      elim (clamp_to_finite float printer v)
        as (λ o.
          elim o [
            | none ↦ (false, buf, counts)
            | some v ↦ (true, write_float float printer v buf, push_raw_str (itoa count) counts)
          ]
          ≡ written
              (counted (elim o [ none ↦ none | some v ↦ some (strip_dot_zero (dtoa v)) ]) count) buf
              counts) [ none ↦ refl | some v ↦ refl ]

  write_observation_lem :
      (observation : Observation float) (multiplicity : Option ℕ) (buf counts : PrefixedStringBuf)
      → write_observation float printer observation multiplicity buf counts
        ≡ written (reading multiplicity observation) buf counts
  unfolding write_observation
  write_observation_lem (unsigned v) multiplicity buf counts = refl
  write_observation_lem (floating v) multiplicity buf counts =
      write_number_lem v (unwrap_or 1 multiplicity) buf counts
  write_observation_lem (repeated total occurrences) multiplicity buf counts =
      write_number_lem (mean float printer total occurrences)
        (saturating_mul occurrences (unwrap_or 1 multiplicity)) buf counts

  abbrev separator : Bool → Bytes
  separator wrote = if wrote then b',' ∷ [] else []

  -- A skipped observation leaves the buffers as they were, and one that is not is written after its
  -- comma.
  write_each-skipped :
      (wrote : Bool) (observation : Observation float) (distribution : List (Observation float))
      (multiplicity : Option ℕ) (buf counts : PrefixedStringBuf)
      → IsValid buf
      → IsValid counts
      → reading multiplicity observation ≡ none
      → write_each float printer wrote (observation ∷ distribution) multiplicity buf counts
        ≡ write_each float printer wrote distribution multiplicity buf counts
  unfolding write_each
  write_each-skipped wrote observation distribution multiplicity buf counts hb hc h =
      let eq =
        write_observation_lem observation multiplicity (push_raw_str (separator wrote) buf)
          (push_raw_str (separator wrote) counts)
        ∙ ap
            (λ r.
              written r (push_raw_str (separator wrote) buf)
                (push_raw_str (separator wrote) counts))
            h in
      rw
        (
          ap (λ p. p.0) eq,
          ap (λ p. p.1) eq,
          truncate-push_raw_str (separator wrote) buf hb,
          ap (λ p. p.2) eq,
          truncate-push_raw_str (separator wrote) counts hc,
          write_each,
        )
        refl

  write_each-kept :
      (wrote : Bool) (observation : Observation float) (distribution : List (Observation float))
      (multiplicity : Option ℕ) (buf counts : PrefixedStringBuf) (text count : Bytes)
      → reading multiplicity observation ≡ some (text, count)
      → write_each float printer wrote (observation ∷ distribution) multiplicity buf counts
        ≡ write_each float printer true distribution multiplicity
            (push_raw_str (separator wrote ++ text) buf)
            (push_raw_str (separator wrote ++ count) counts)
  unfolding write_each
  write_each-kept wrote observation distribution multiplicity buf counts text count h =
      let eq =
        write_observation_lem observation multiplicity (push_raw_str (separator wrote) buf)
          (push_raw_str (separator wrote) counts)
        ∙ ap
            (λ r.
              written r (push_raw_str (separator wrote) buf)
                (push_raw_str (separator wrote) counts))
            h in
      rw
        (
          ap (λ p. p.0) eq,
          ap (λ p. p.1) eq,
          ap (λ p. p.2) eq,
          push_raw_str_twice (separator wrote) text buf,
          push_raw_str_twice (separator wrote) count counts,
          write_each,
        )
        refl

  abbrev pub separated : Bool → List Bytes → Bytes
  separated wrote texts = if wrote then each_after_comma texts else joined texts

  separated-cons :
      (wrote : Bool) (text : Bytes) (texts : List Bytes)
      → (separator wrote ++ text) ++ each_after_comma texts ≡ separated wrote (text ∷ texts)
  separated-cons true text texts = refl
  separated-cons false text texts = refl

  separated-nil : (wrote : Bool) → separated wrote [] ≡ []
  separated-nil true = refl
  separated-nil false = refl

  abbrev pub any_written : Bool → List (Bytes × Bytes) → Bool
  any_written wrote [] = wrote
  any_written wrote (text ∷ texts) = true

  any_written-true : (texts : List (Bytes × Bytes)) → any_written true texts ≡ true
  any_written-true [] = refl
  any_written-true (text ∷ texts) = refl

  abbrev pub values : List (Bytes × Bytes) → List Bytes
  values texts = map (λ text. text.0) texts

  abbrev pub counts_of : List (Bytes × Bytes) → List Bytes
  counts_of texts = map (λ text. text.1) texts

  push-separated :
      (wrote : Bool) (text : Bytes) (texts : List Bytes) (b : PrefixedStringBuf)
      → push_raw_str (each_after_comma texts) (push_raw_str (separator wrote ++ text) b)
        ≡ push_raw_str (separated wrote (text ∷ texts)) b
  push-separated wrote text texts b =
      push_raw_str_twice (separator wrote ++ text) (each_after_comma texts) b
      ∙ ap (λ xs. push_raw_str xs b) (separated-cons wrote text texts)

  -- The buffers after some texts.
  abbrev pub with_texts :
      Bool
      → Bytes
      → Bytes
      → PrefixedStringBuf
      → PrefixedStringBuf
      → Option (Bool × PrefixedStringBuf × PrefixedStringBuf)
  with_texts wrote texts counts_text buf counts =
      some (wrote, push_raw_str texts buf, push_raw_str counts_text counts)

  after_comma :
      (texts : List (Bytes × Bytes)) (wrote : Bool) (text count : Bytes)
      (buf counts : PrefixedStringBuf)
      → with_texts
          (any_written true texts)
          (each_after_comma (values texts))
          (each_after_comma (counts_of texts))
          (push_raw_str (separator wrote ++ text) buf)
          (push_raw_str (separator wrote ++ count) counts)
        ≡ with_texts true
            (separated wrote (text ∷ values texts))
            (separated wrote (count ∷ counts_of texts))
            buf
            counts
  after_comma texts wrote text count buf counts =
      rw
        (
          any_written-true texts,
          push-separated wrote text (values texts) buf,
          push-separated wrote count (counts_of texts) counts,
        )
        refl

  -- The loop writes the readings, in their order.
  pub write_each_lem :
      (wrote : Bool) (distribution : List (Observation float)) (multiplicity : Option ℕ)
      (buf counts : PrefixedStringBuf)
      → IsValid buf
      → IsValid counts
      → write_each float printer wrote distribution multiplicity buf counts
        ≡ with_texts
            (any_written wrote (readings multiplicity distribution))
            (separated wrote (values (readings multiplicity distribution)))
            (separated wrote (counts_of (readings multiplicity distribution)))
            buf
            counts
  unfolding write_each
  write_each_lem wrote [] multiplicity buf counts hb hc =
      rw (separated-nil wrote, push_raw_str_nil buf, push_raw_str_nil counts) refl
  write_each_lem wrote (observation ∷ distribution) multiplicity buf counts hb hc =
      elim (Option-cases (reading multiplicity observation)) [
        | inl h ↦
            write_each-skipped wrote observation distribution multiplicity buf counts hb hc h
            ∙ write_each_lem wrote distribution multiplicity buf counts hb hc
            ∙ rw h refl
        | inr ((text, count), h) ↦
            write_each-kept wrote observation distribution multiplicity buf counts text count h
            ∙ write_each_lem true distribution multiplicity
                (push_raw_str (separator wrote ++ text) buf)
                (push_raw_str (separator wrote ++ count) counts)
                (push_raw_str-IsValid (separator wrote ++ text) buf hb)
                (push_raw_str-IsValid (separator wrote ++ count) counts hc)
            ∙ rw h (after_comma (readings multiplicity distribution) wrote text count buf counts)
      ]
