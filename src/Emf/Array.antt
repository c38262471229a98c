-- ===== src/Emf/Array.antt =====
-- How `ValueWriter::values` of metrique-writer-format-emf/src/emf.rs writes an array, by
-- `EmfArrayElementWriter`. A list within a list is left out.
use metrique.Prelude.{
  Bool, true, false, Option, none, some, List, [], ◌∷◌, length, ltb, String, codes, if◌then◌else◌,
}
use metrique.Histogram.{Float, Observation, unsigned, floating, repeated}
use metrique.Emf.Buf.{PrefixedStringBuf, push_raw_str, truncate}
use metrique.Emf.Metric.{Printer, clamp_to_finite, write_float, mean}

-- What a value makes its element writer do: a string, a metric, or nothing, as for an error.
pub data Element (float : Float) : Type 0 where
  string : String → Element float
  metric : List (Observation float) → Element float
  nothing : Element float

-- The loop over the elements, and that over the observations of one. None when an assertion fails.
module _ {A : Type 0} (write : A → PrefixedStringBuf → Option PrefixedStringBuf) where
  unfoldable pub write_elements : Bool → List A → PrefixedStringBuf → Option PrefixedStringBuf
  write_elements wrote_any [] buf = some buf
  write_elements wrote_any (x ∷ xs) buf =
      let after_sep = if wrote_any then push_raw_str (codes ",") buf else buf in
      elim (write x after_sep) [
        | none ↦ none
        | some buf' ↦ elim (ltb (length after_sep.buf) (length buf'.buf)) [
          | true ↦ write_elements true xs buf'
          | false ↦ elim (truncate (length buf.buf) buf') [
            | none ↦ none
            | some buf'' ↦ write_elements wrote_any xs buf''
          ]
        ]
      ]

module _ (float : Float) (printer : Printer float) where
  unfoldable pub write_finite : float.F → PrefixedStringBuf → PrefixedStringBuf
  unfolding clamp_to_finite write_float
  write_finite v buf = elim (clamp_to_finite float printer v) [
    | none ↦ buf
    | some v ↦ write_float float printer v buf
  ]

  unfoldable pub write_emf_observation : Observation float → PrefixedStringBuf → PrefixedStringBuf
  unfolding write_finite mean
  write_emf_observation (unsigned v) buf = push_raw_str (printer.itoa v) buf
  write_emf_observation (floating v) buf = write_finite v buf
  write_emf_observation (repeated total occurrences) buf =
      write_finite (mean float printer total occurrences) buf

  unfoldable pub write_observations :
      List (Observation float) → PrefixedStringBuf → Option PrefixedStringBuf
  unfolding write_emf_observation write_elements
  write_observations [] buf = some buf
  write_observations (first ∷ []) buf = some (write_emf_observation first buf)
  write_observations (first ∷ second ∷ distribution) buf =
      elim (write_elements (λ obs b. some (write_emf_observation obs b)) false
        (first ∷ second ∷ distribution) (push_raw_str (codes "[") buf)) [
          | none ↦ none
          | some buf' ↦ some (push_raw_str (codes "]") buf')
        ]

  unfoldable pub write_element : Element float → PrefixedStringBuf → Option PrefixedStringBuf
  unfolding write_observations
  write_element (string s) buf = some (push_raw_str (printer.json s) buf)
  write_element (metric distribution) buf = write_observations distribution buf
  write_element nothing buf = some buf

  unfoldable pub write_values :
      String → List (Element float) → PrefixedStringBuf → Option PrefixedStringBuf
  unfolding write_element write_elements
  write_values name values buf =
      elim (write_elements write_element false values (
        push_raw_str (codes "[") (
          push_raw_str (codes ":")
            (push_raw_str (printer.json name) (push_raw_str (codes ",") buf))))) [
              | none ↦ none
              | some buf' ↦ some (push_raw_str (codes "]") buf')
            ]
