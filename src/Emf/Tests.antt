-- ===== src/Emf/Tests.antt =====
-- Buffers written to a writer that takes two bytes at a time, a metric, and an array.
use metrique.Prelude.{
  ℕ, zero, suc, ◌≤◌, ◌≡◌, refl, sym, ◌∙◌, ap, ◌<◌, true, false, ◌+◌, none, List, [], ◌∷◌, ◌++◌,
  some, min, length, take, concat, codes, arith,
}
use metrique.Histogram.{Observation, unsigned, floating, repeated}
use metrique.Histogram.Numbers.{numbers}
use metrique.Emf.Buf.{
  PrefixedStringBuf, IsValid, push_raw_str, truncate, clear, from_prefix, is_empty,
}
use metrique.Emf.Metric.{
  Printer, clamp_to_finite, write_float, mean, write_number, write_observation, write_each,
  write_distribution, write_value, write_metric_value, declare, write_metric, strip_dot_zero,
}
use metrique.Emf.Listed.{IsCounts, metric_value}
use metrique.Emf.Array.{
  Element, string, metric, nothing, write_values, write_elements, write_element, write_observations,
  write_emf_observation, write_finite,
}
use metrique.Emf.Fields.{AfterMetric, write_metric_lem}
use metrique.Emf.Output.{
  Bytes, IoError, interrupted, ok, err, Output, done, advance_slices, write_loop,
  write_all_vectored,
}
use metrique.Emf.Vectored.{IsWrite, EndsWell, write_all_vectored_lem}

-- The bytes written, and how many calls are yet to be interrupted.
abbrev pub two_at_a_time : Output
two_at_a_time = record {
  State = Bytes × ℕ;
  write_vectored = λ (bytes, left) bufs. elim left [
    | zero ↦ let n = min 2 (length (concat bufs)) in (ok n, (bytes ++ take n (concat bufs), zero))
    | suc left ↦ (err interrupted, (bytes, left))
  ];
}

-- The first `n` bytes, `n` being the lesser of two numbers.
accept :
    (bytes : Bytes) (left : ℕ) (w' : Bytes × ℕ) (bufs : List Bytes) (n : ℕ)
    → two_at_a_time.write_vectored (bytes, left) bufs ≡ (ok n, w')
    → (n ≤ length (concat bufs)) × (w'.0 ≡ bytes ++ take n (concat bufs)) × (w'.1 ≤ left)
accept bytes zero w' bufs n at =
    let same : min 2 (length (concat bufs)) ≡ n = ground (arith, ap (λ p. p.0) at) in
    (
      omega arith,
      sym (ap (λ p. p.1.0) at) ∙ ap (λ k. bytes ++ take k (concat bufs)) same,
      omega (arith, ap (λ p. p.1.1) at),
    )
accept bytes (suc left) w' bufs n at = absurd (ground (arith, ap (λ p. p.0) at))

refuse :
    (bytes : Bytes) (left : ℕ) (w' : Bytes × ℕ) (bufs : List Bytes) (e : IoError)
    → two_at_a_time.write_vectored (bytes, left) bufs ≡ (err e, w')
    → (w'.0 ≡ bytes) × (w'.1 < left)
refuse bytes zero w' bufs e at = absurd (ground (arith, ap (λ p. p.0) at))
refuse bytes (suc left) w' bufs e at = (sym (ap (λ p. p.1.0) at), omega (arith, ap (λ p. p.1.1) at))

pub two_at_a_time-IsWrite : IsWrite two_at_a_time (λ w. w.0) (λ w. w.1)
two_at_a_time-IsWrite = record {
  accepted = λ w w' bufs n at. accept w.0 w.1 w' bufs n at;
  refused = λ w w' bufs e at. (refuse w.0 w.1 w' bufs e at).0;
  interruption = λ w w' bufs at. (refuse w.0 w.1 w' bufs interrupted at).1;
}

abbrev lines : List Bytes
lines = (1 ∷ 2 ∷ 3 ∷ []) ∷ [] ∷ (4 ∷ 5 ∷ []) ∷ []

lines_written :
    write_all_vectored two_at_a_time 9 lines ([], 2) ≡ some (done, (1 ∷ 2 ∷ 3 ∷ 4 ∷ 5 ∷ [], 0))
unfolding write_all_vectored write_loop advance_slices
lines_written = refl

write_all_vectored_lem_example :
    EndsWell two_at_a_time
      (λ w. w.0)
      (λ w. w.1)
      two_at_a_time-IsWrite
      (write_all_vectored two_at_a_time 9 lines ([], 2))
      (concat lines)
      ([], 2)
write_all_vectored_lem_example =
    write_all_vectored_lem two_at_a_time (λ w. w.0) (λ w. w.1) two_at_a_time-IsWrite 9 lines ([], 2)
      (omega arith)

-- One digit for a number, `n.0` for a floating-point one, and quotes around a string.
abbrev pub digits : Printer numbers
digits = record {
  zero = some 0;
  clamp = λ v. v;
  is_finite = λ v. elim v [ none ↦ false | some n ↦ true ];
  itoa = λ n. (48 + n) ∷ [];
  dtoa = λ v. elim v [ none ↦ [] | some n ↦ (48 + n) ∷ codes ".0" ];
  json = λ s. codes "\"" ++ codes s ++ codes "\"";
}

-- 1, NaN, a mean of 4 twice.
abbrev measured : List (Observation numbers)
measured = unsigned 1 ∷ floating none ∷ repeated (some 8) 2 ∷ []

abbrev fields : PrefixedStringBuf
fields = record { prefix_len = 1; buf = codes "}" }

abbrev metrics : PrefixedStringBuf
metrics = record { prefix_len = 2; buf = codes "[[" }

abbrev pub counts : PrefixedStringBuf
counts = record { prefix_len = 12; buf = codes "],\"Counts\":[9" }

fields-IsValid : IsValid fields
fields-IsValid = record { kept = omega arith }

pub counts-IsCounts : IsCounts counts
unfolding clear from_prefix
counts-IsCounts = record { cleared = refl }

metric_written :
    write_metric numbers digits "a" measured (some "Count") none (some 3) fields metrics counts
    ≡ some (
      record { prefix_len = 1; buf = codes "},\"a\":{\"Values\":[1,4],\"Counts\":[3,6]}" },
      record { prefix_len = 2; buf = codes "[[{\"Name\":\"a\",\"Unit\":\"Count\"}" },
      record { prefix_len = 12; buf = codes "],\"Counts\":[" },
    )
unfolding write_metric write_metric_value write_value write_distribution write_each
    write_observation write_number write_float mean clamp_to_finite strip_dot_zero declare
    push_raw_str clear truncate is_empty
metric_written = refl

write_metric_lem_example :
    AfterMetric numbers digits "a" measured
      (some "Count")
      none
      (some 3)
      fields
      metrics
      counts
      (metric_value numbers digits measured (some 3))
write_metric_lem_example =
    write_metric_lem numbers digits "a" measured (some "Count") none (some 3) fields metrics counts
      fields-IsValid counts-IsCounts

-- A string, a number, an error, NaN, and a list with a NaN in it.
abbrev elements : List (Element numbers)
elements =
    string "x"
    ∷ metric (unsigned 1 ∷ [])
    ∷ nothing
    ∷ metric (floating none ∷ [])
    ∷ metric (unsigned 2 ∷ floating none ∷ unsigned 3 ∷ [])
    ∷ []

values_written :
    write_values numbers digits "a" elements fields
    ≡ some (record { prefix_len = 1; buf = codes "},\"a\":[\"x\",1,[2,3]]" })
unfolding write_values write_elements write_element write_observations write_emf_observation
    write_finite write_float mean clamp_to_finite strip_dot_zero push_raw_str truncate
values_written = refl
