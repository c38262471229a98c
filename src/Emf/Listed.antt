-- ===== src/Emf/Listed.antt =====
-- The text of a metric's value: a number, or the lists of the values and their counts.
use metrique.Prelude.{
  ℕ, ◌≡◌, refl, sym, ap, ap₂, ◌∙◌, arith, Bool, true, false, Option, none, some, List, [], ◌∷◌,
  ◌++◌, codes, append_assoc,
}
use metrique.Histogram.{Float, Observation, unsigned, floating, repeated}
use metrique.Emf.Output.{Bytes}
use metrique.Emf.Buf.{
  PrefixedStringBuf, IsValid, push_raw_str, clear, from_prefix, push_raw_str-IsValid,
  push_raw_str_nil, clear-push_raw_str,
}
use metrique.Emf.Metric.{
  Printer, clamp_to_finite, strip_dot_zero, write_float, write_distribution, write_value,
}
use metrique.Emf.Values.{
  joined, number_text, readings, values, counts_of, any_written, write_each_lem,
}

abbrev pub counts_prefix : Bytes
counts_prefix = codes "],\"Counts\":["

-- A buffer for counts, whatever is left in it.
pub record IsCounts (counts : PrefixedStringBuf) : Type 0 where
  pub cleared : clear counts ≡ from_prefix counts_prefix

fresh-IsValid : IsValid (from_prefix counts_prefix)
unfolding from_prefix
fresh-IsValid = record { kept = omega arith }

fresh-IsCounts : IsCounts (from_prefix counts_prefix)
unfolding from_prefix clear
fresh-IsCounts = record { cleared = refl }

append_assoc_six :
    (b o vs p cs e : Bytes) → (((b ++ o) ++ vs) ++ (p ++ cs)) ++ e ≡ b ++ (o ++ vs ++ p ++ cs ++ e)
append_assoc_six b o vs p cs e = simp append_assoc

-- The lists closed, the values being followed by the buffer of the counts.
closed :
    (wrote : Bool) (vs cs : Bytes) (buf : PrefixedStringBuf)
    → ◌≡◌ {A = Option (Bool × PrefixedStringBuf × PrefixedStringBuf)}
        (some (
          wrote,
          push_raw_str (codes "]}") (
              push_raw_str
                (push_raw_str cs (from_prefix counts_prefix)).buf
                (push_raw_str vs (push_raw_str (codes "{\"Values\":[") buf))),
          clear (push_raw_str cs (from_prefix counts_prefix)),
        ))
        (some (
          wrote,
          push_raw_str
              (codes "{\"Values\":[" ++ vs ++ codes "],\"Counts\":[" ++ cs ++ codes "]}")
              buf,
          from_prefix counts_prefix,
        ))
unfolding push_raw_str from_prefix
closed wrote vs cs buf =
    ap₂ (λ xs c. some (wrote, record buf { buf = xs }, c))
      (append_assoc_six buf.buf (codes "{\"Values\":[") vs counts_prefix cs (codes "]}"))
      (clear-push_raw_str cs (from_prefix counts_prefix) fresh-IsValid ∙ fresh-IsCounts.cleared)

module _ (float : Float) (printer : Printer float) where
  open float use {F}
  open printer use {itoa, json}

  -- The list of the values and the list of the counts of the observations that are not skipped,
  -- unless there are none.
  abbrev pub listed : List (Bytes × Bytes) → Option Bytes
  listed [] = none
  listed (text ∷ texts) = some (
      codes "{\"Values\":["
      ++ joined (values float printer (text ∷ texts))
      ++ codes "],\"Counts\":["
      ++ joined (counts_of float printer (text ∷ texts))
      ++ codes "]}")

  -- A metric's value: a number, for one observation without a multiplicity, or else the lists.
  abbrev pub metric_value : List (Observation float) → Option ℕ → Option Bytes
  metric_value [] multiplicity = none
  metric_value (unsigned v ∷ []) none = some (itoa v)
  metric_value (floating v ∷ []) none = number_text float printer v
  metric_value distribution multiplicity = listed (readings float printer multiplicity distribution)

  abbrev lists_text : List (Bytes × Bytes) → Bytes
  lists_text texts =
      codes "{\"Values\":["
      ++ joined (values float printer texts)
      ++ codes "],\"Counts\":["
      ++ joined (counts_of float printer texts)
      ++ codes "]}"

  write_distribution_lem :
      (distribution : List (Observation float)) (multiplicity : Option ℕ)
      (buf counts : PrefixedStringBuf)
      → IsValid buf
      → IsCounts counts
      → write_distribution float printer distribution multiplicity buf counts
        ≡ some (
          any_written float printer false (readings float printer multiplicity distribution),
          push_raw_str (lists_text (readings float printer multiplicity distribution)) buf,
          from_prefix counts_prefix,
        )
  unfolding write_distribution
  write_distribution_lem distribution multiplicity buf counts hb hc =
      rw
        (
          hc.cleared,
          write_each_lem float printer false distribution multiplicity
              (push_raw_str (codes "{\"Values\":[") buf) (from_prefix counts_prefix)
              (push_raw_str-IsValid (codes "{\"Values\":[") buf hb) fresh-IsValid,
          write_distribution,
        )
        (closed (any_written float printer false (readings float printer multiplicity distribution))
          (joined (values float printer (readings float printer multiplicity distribution)))
          (joined (counts_of float printer (readings float printer multiplicity distribution))) buf)

  -- A value's text is pushed, or else the metric is skipped; then the buffer of the fields is only
  -- longer, and that of the counts is one all the same.
  abbrev pub Writes :
      Option Bytes
      → PrefixedStringBuf
      → Option (Bool × PrefixedStringBuf × PrefixedStringBuf)
      → Type 0
  Writes none buf run =
      (s : Bytes) × (counts' : PrefixedStringBuf) × (run
        ≡ some (false, push_raw_str s buf, counts'))
      × IsCounts counts'
  Writes (some text) buf run =
      (counts' : PrefixedStringBuf) × (run ≡ some (true, push_raw_str text buf, counts'))
      × IsCounts counts'

  listed-Writes :
      (texts : List (Bytes × Bytes)) (buf : PrefixedStringBuf)
      (run : Option (Bool × PrefixedStringBuf × PrefixedStringBuf))
      → run
        ≡ some (
          any_written float printer false texts,
          push_raw_str (lists_text texts) buf,
          from_prefix counts_prefix,
        )
      → Writes (listed texts) buf run
  listed-Writes [] buf run e = (lists_text [], from_prefix counts_prefix, e, fresh-IsCounts)
  listed-Writes (text ∷ texts) buf run e = (from_prefix counts_prefix, e, fresh-IsCounts)

  distribution-Writes :
      (distribution : List (Observation float)) (multiplicity : Option ℕ)
      (buf counts : PrefixedStringBuf)
      → IsValid buf
      → IsCounts counts
      → Writes
          (listed (readings float printer multiplicity distribution))
          buf
          (write_distribution float printer distribution multiplicity buf counts)
  distribution-Writes distribution multiplicity buf counts hb hc =
      listed-Writes (readings float printer multiplicity distribution) buf
        (write_distribution float printer distribution multiplicity buf counts)
        (write_distribution_lem distribution multiplicity buf counts hb hc)

  pub write_value_lem :
      (first : Observation float) (distribution : List (Observation float))
      (multiplicity : Option ℕ) (buf counts : PrefixedStringBuf)
      → IsValid buf
      → IsCounts counts
      → Writes
          (metric_value (first ∷ distribution) multiplicity)
          buf
          (write_value float printer first distribution multiplicity buf counts)
  unfolding write_value write_float
  write_value_lem (unsigned v) [] none buf counts hb hc = (counts, refl, hc)
  write_value_lem (floating v) [] none buf counts hb hc =
      elim (clamp_to_finite float printer v)
        as (λ o.
          Writes (elim o [ none ↦ none | some v ↦ some (strip_dot_zero (printer.dtoa v)) ]) buf
            (elim o [
              | none ↦ some (false, buf, counts)
              | some v ↦ some (true, write_float float printer v buf, counts)
            ])) [
              | none ↦
                  ([], counts, ap (λ b. some (false, b, counts)) (sym (push_raw_str_nil buf)), hc)
              | some v ↦ (counts, refl, hc)
            ]
  write_value_lem (unsigned v) [] (some m) buf counts hb hc =
      distribution-Writes (unsigned v ∷ []) (some m) buf counts hb hc
  write_value_lem (floating v) [] (some m) buf counts hb hc =
      distribution-Writes (floating v ∷ []) (some m) buf counts hb hc
  write_value_lem (repeated total occurrences) [] multiplicity buf counts hb hc =
      distribution-Writes (repeated total occurrences ∷ []) multiplicity buf counts hb hc
  write_value_lem (unsigned v) (second ∷ distribution) multiplicity buf counts hb hc =
      distribution-Writes (unsigned v ∷ second ∷ distribution) multiplicity buf counts hb hc
  write_value_lem (floating v) (second ∷ distribution) multiplicity buf counts hb hc =
      distribution-Writes (floating v ∷ second ∷ distribution) multiplicity buf counts hb hc
  write_value_lem (repeated total occurrences) (second ∷ distribution) multiplicity buf counts hb
        hc =
      distribution-Writes (repeated total occurrences ∷ second ∷ distribution) multiplicity buf
        counts hb hc
