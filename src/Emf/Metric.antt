-- ===== src/Emf/Metric.antt =====
-- How `ValueWriter` of metrique-writer-format-emf/src/emf.rs writes a metric's observations, and
-- the metric's declaration. `f64` and the crates that print numbers and strings are parameters.
use metrique.Prelude.{
  ℕ, ◌-◌, ◌*◌, ◌^◌, Bool, true, false, not, ◌&&◌, Option, none, some, List, [], ◌∷◌, ◌==◌, length,
  min, if◌then◌else◌, String, codes,
}
use metrique.Histogram.{Float, Observation, unsigned, floating, repeated}
use metrique.Emf.Output.{Bytes}
use metrique.Emf.Buf.{PrefixedStringBuf, is_empty, clear, push_raw_str, truncate}

-- `clamp` is that of `f64` between its least and its greatest finite number; `itoa`, `dtoa` and
-- `json` stand for the crates itoa, dtoa and serde_json.
pub record Printer (float : Float) : Type 0 where
  pub zero : float.F
  pub clamp : float.F → float.F
  pub is_finite : float.F → Bool
  pub itoa : ℕ → Bytes
  pub dtoa : float.F → Bytes
  pub json : String → Bytes

-- The `StorageMode` in `EmfOptions`.
pub data StorageMode : Type 0 where
  high_storage_resolution : StorageMode
  no_metric : StorageMode

-- `u64::saturating_mul`.
abbrev pub saturating_mul : ℕ → ℕ → ℕ
saturating_mul a b = min (a * b) (2 ^ 64 - 1)

abbrev pub unwrap_or : ℕ → Option ℕ → ℕ
unwrap_or n none = n
unwrap_or n (some m) = m

abbrev is_dot_zero : Bytes → Bool
is_dot_zero (a ∷ b ∷ []) = a == b'.' && b == b'0'
is_dot_zero s = false

-- `s.strip_suffix(".0").unwrap_or(s)`.
unfoldable pub strip_dot_zero : Bytes → Bytes
strip_dot_zero [] = []
strip_dot_zero (a ∷ s) = let rest = strip_dot_zero s in if is_dot_zero (a ∷ s) then [] else a ∷ rest

module _ (float : Float) (printer : Printer float) where
  open float use {F, of_nat, div}
  open printer use {itoa, dtoa, json}

  -- `FiniteFloat` is what this returns.
  unfoldable pub clamp_to_finite : F → Option F
  clamp_to_finite v = let v = printer.clamp v in if printer.is_finite v then some v else none

  unfoldable pub write_float : F → PrefixedStringBuf → PrefixedStringBuf
  write_float v buf = push_raw_str (strip_dot_zero (dtoa v)) buf

  unfoldable pub mean : F → ℕ → F
  mean total occurrences = if occurrences == 0 then printer.zero else div total (of_nat occurrences)

  -- A finite number and its count; false is `Err(MetricSkipped)`.
  unfoldable pub write_number :
      F → ℕ → PrefixedStringBuf → PrefixedStringBuf → Bool × PrefixedStringBuf × PrefixedStringBuf
  unfolding clamp_to_finite write_float
  write_number v count buf counts = elim (clamp_to_finite v) [
    | none ↦ (false, buf, counts)
    | some v ↦ (true, write_float v buf, push_raw_str (itoa count) counts)
  ]

  unfoldable pub write_observation :
      Observation float
      → Option ℕ
      → PrefixedStringBuf
      → PrefixedStringBuf
      → Bool × PrefixedStringBuf × PrefixedStringBuf
  unfolding write_number mean
  write_observation (unsigned v) multiplicity buf counts =
      (true, push_raw_str (itoa v) buf, push_raw_str (itoa (unwrap_or 1 multiplicity)) counts)
  write_observation (floating v) multiplicity buf counts =
      write_number v (unwrap_or 1 multiplicity) buf counts
  write_observation (repeated total occurrences) multiplicity buf counts =
      write_number (mean total occurrences) (saturating_mul occurrences (unwrap_or 1 multiplicity))
        buf counts

  -- The loop over the observations. None when an assertion of `truncate` fails.
  unfoldable pub write_each :
      Bool
      → List (Observation float)
      → Option ℕ
      → PrefixedStringBuf
      → PrefixedStringBuf
      → Option (Bool × PrefixedStringBuf × PrefixedStringBuf)
  write_each wrote_anything [] multiplicity buf counts = some (wrote_anything, buf, counts)
  write_each wrote_anything (observation ∷ distribution) multiplicity buf counts =
      let separator = if wrote_anything then b',' ∷ [] else [] in
      let (written, buf', counts') =
        write_observation observation multiplicity (push_raw_str separator buf)
          (push_raw_str separator counts) in
      elim written [
        | true ↦ write_each true distribution multiplicity buf' counts'
        | false ↦ elim (truncate (length buf.buf) buf') [
          | none ↦ none
          | some buf'' ↦ elim (truncate (length counts.buf) counts') [
            | none ↦ none
            | some counts'' ↦ write_each wrote_anything distribution multiplicity buf'' counts''
          ]
        ]
      ]

  unfoldable pub write_distribution :
      List (Observation float)
      → Option ℕ
      → PrefixedStringBuf
      → PrefixedStringBuf
      → Option (Bool × PrefixedStringBuf × PrefixedStringBuf)
  unfolding write_each
  write_distribution distribution multiplicity buf counts =
      elim (write_each false distribution multiplicity (push_raw_str (codes "{\"Values\":[") buf)
        (clear counts)) [
          | none ↦ none
          | some (wrote_anything, buf', counts') ↦ some (
            wrote_anything,
            push_raw_str (codes "]}") (push_raw_str counts'.buf buf'),
            clear counts',
          )
        ]

  unfoldable pub write_value :
      Observation float
      → List (Observation float)
      → Option ℕ
      → PrefixedStringBuf
      → PrefixedStringBuf
      → Option (Bool × PrefixedStringBuf × PrefixedStringBuf)
  unfolding write_distribution clamp_to_finite write_float
  write_value (unsigned v) [] none buf counts = some (true, push_raw_str (itoa v) buf, counts)
  write_value (floating v) [] none buf counts = elim (clamp_to_finite v) [
    | none ↦ some (false, buf, counts)
    | some v ↦ some (true, write_float v buf, counts)
  ]
  write_value first distribution multiplicity buf counts =
      write_distribution (first ∷ distribution) multiplicity buf counts

  -- The name and the value; false is `Err(MetricSkipped)`.
  unfoldable pub write_metric_value :
      String
      → Observation float
      → List (Observation float)
      → Option ℕ
      → PrefixedStringBuf
      → PrefixedStringBuf
      → Option (Bool × PrefixedStringBuf × PrefixedStringBuf)
  unfolding write_value
  write_metric_value name first distribution multiplicity fields_buf counts_buf =
      write_value first distribution multiplicity
        (push_raw_str (codes ":") (push_raw_str (json name) (push_raw_str (codes ",") fields_buf)))
        counts_buf

  -- The declaration of a metric with a unit's name, none for `Unit::None`.
  unfoldable pub declare :
      String → Option String → Option StorageMode → PrefixedStringBuf → PrefixedStringBuf
  declare name unit (some no_metric) metrics_buf = metrics_buf
  declare name unit flags metrics_buf =
      let comma =
        if not (is_empty metrics_buf) then push_raw_str (codes ",") metrics_buf else metrics_buf in
      let named = push_raw_str (json name) (push_raw_str (codes "{\"Name\":") comma) in
      let measured : PrefixedStringBuf = elim unit [
        | none ↦ named
        | some unit ↦ push_raw_str (json unit) (push_raw_str (codes ",\"Unit\":") named)
      ] in
      elim flags [
        | none ↦ push_raw_str (codes "}") measured
        | some mode ↦ push_raw_str (codes ",\"StorageResolution\":1}") measured
      ]

  -- The buffers of the fields, the declarations and the counts after it.
  unfoldable pub write_metric :
      String
      → List (Observation float)
      → Option String
      → Option StorageMode
      → Option ℕ
      → PrefixedStringBuf
      → PrefixedStringBuf
      → PrefixedStringBuf
      → Option (PrefixedStringBuf × PrefixedStringBuf × PrefixedStringBuf)
  unfolding write_metric_value declare
  write_metric name [] unit flags multiplicity fields_buf metrics_buf counts_buf =
      some (fields_buf, metrics_buf, counts_buf)
  write_metric name (first ∷ distribution) unit flags multiplicity fields_buf metrics_buf
        counts_buf =
      elim (write_metric_value name first distribution multiplicity fields_buf counts_buf) [
        | none ↦ none
        | some (written, fields, counts) ↦ elim written [
          | true ↦ some (fields, declare name unit flags metrics_buf, counts)
          | false ↦ elim (truncate (length fields_buf.buf) fields) [
            | none ↦ none
            | some fields' ↦ some (fields', metrics_buf, counts)
          ]
        ]
      ]
