-- ===== src/Emf/Fields.antt =====
-- What `write_metric` puts into the fields and the declarations of a line.
use metrique.Prelude.{
  ℕ, ◌≡◌, refl, sym, ap, ◌∙◌, true, false, not, Option, none, some, List, [], ◌∷◌, ◌++◌, String,
  codes, if◌then◌else◌,
}
use metrique.Histogram.{Float, Observation}
use metrique.Emf.Output.{Bytes}
use metrique.Emf.Buf.{
  PrefixedStringBuf, IsValid, push_raw_str, is_empty, push_raw_str-IsValid, truncate-push_raw_str,
  push_raw_str_twice, push_raw_str_nil,
}
use metrique.Emf.Metric.{
  Printer, StorageMode, high_storage_resolution, no_metric, write_metric_value, declare,
  write_metric,
}
use metrique.Emf.Listed.{IsCounts, metric_value, Writes, write_value_lem}

-- A comma, unless nothing stands before it.
comma_unless_empty :
    (metrics : PrefixedStringBuf)
    → (if not (is_empty metrics) then push_raw_str (codes ",") metrics else metrics)
      ≡ push_raw_str (if is_empty metrics then [] else codes ",") metrics
comma_unless_empty metrics =
    elim (is_empty metrics)
      as (λ b.
        (if not b then push_raw_str (codes ",") metrics else metrics)
        ≡ push_raw_str (if b then [] else codes ",") metrics) [
          | true ↦ sym (push_raw_str_nil metrics)
          | false ↦ refl
        ]

push_five :
    (a b c d e : Bytes) (m : PrefixedStringBuf)
    → push_raw_str e (push_raw_str d (push_raw_str c (push_raw_str b (push_raw_str a m))))
      ≡ push_raw_str (a ++ b ++ c ++ d ++ e) m
push_five a b c d e m = simp push_raw_str_twice

module _ (float : Float) (printer : Printer float) where
  open printer use {json}

  -- A field's text, and a declaration's.
  abbrev pub field : String → Bytes → Bytes
  field name text = codes "," ++ json name ++ codes ":" ++ text

  abbrev pub unit_text : Option String → Bytes
  unit_text none = []
  unit_text (some unit) = codes ",\"Unit\":" ++ json unit

  abbrev pub resolution_text : Option StorageMode → Bytes
  resolution_text none = codes "}"
  resolution_text (some mode) = codes ",\"StorageResolution\":1}"

  -- What the declarations become: nothing is added without a CloudWatch metric.
  abbrev pub declared :
      String → Option String → Option StorageMode → PrefixedStringBuf → PrefixedStringBuf
  declared name unit (some no_metric) metrics = metrics
  declared name unit flags metrics =
      push_raw_str
        ((if is_empty metrics then [] else codes ",")
          ++ codes "{\"Name\":"
          ++ json name
          ++ unit_text unit
          ++ resolution_text flags)
        metrics

  measured :
      (name : String) (unit : Option String) (resolution : Bytes) (metrics c : PrefixedStringBuf)
      → c ≡ push_raw_str (if is_empty metrics then [] else codes ",") metrics
      → push_raw_str resolution (elim unit [
        | none ↦ push_raw_str (json name) (push_raw_str (codes "{\"Name\":") c)
        | some unit ↦ push_raw_str (json unit) (
            push_raw_str
              (codes ",\"Unit\":")
              (push_raw_str (json name) (push_raw_str (codes "{\"Name\":") c)))
      ])
        ≡ push_raw_str
            ((if is_empty metrics then [] else codes ",")
              ++ codes "{\"Name\":"
              ++ json name
              ++ unit_text unit
              ++ resolution)
            metrics
  measured name none resolution metrics c h = rw h (
      ap (push_raw_str resolution) (
        sym (
          push_raw_str_nil (
            push_raw_str (json name) (
              push_raw_str (codes "{\"Name\":")
                (push_raw_str (if is_empty metrics then [] else codes ",") metrics)))))
      ∙ push_five (if is_empty metrics then [] else codes ",") (codes "{\"Name\":") (json name) []
          resolution metrics)
  measured name (some unit) resolution metrics c h = rw h (
      ap (push_raw_str resolution) (
        push_raw_str_twice (codes ",\"Unit\":") (json unit) (
          push_raw_str (json name) (
            push_raw_str (codes "{\"Name\":")
              (push_raw_str (if is_empty metrics then [] else codes ",") metrics))))
      ∙ push_five (if is_empty metrics then [] else codes ",") (codes "{\"Name\":") (json name)
          (unit_text (some unit)) resolution metrics)

  declare_lem :
      (name : String) (unit : Option String) (flags : Option StorageMode)
      (metrics : PrefixedStringBuf)
      → declare float printer name unit flags metrics ≡ declared name unit flags metrics
  unfolding declare
  declare_lem name unit (some no_metric) metrics = refl
  declare_lem name unit none metrics =
      measured name unit (codes "}") metrics
        (if not (is_empty metrics) then push_raw_str (codes ",") metrics else metrics)
        (comma_unless_empty metrics)
  declare_lem name unit (some high_storage_resolution) metrics =
      measured name unit (codes ",\"StorageResolution\":1}") metrics
        (if not (is_empty metrics) then push_raw_str (codes ",") metrics else metrics)
        (comma_unless_empty metrics)

  -- The buffers after a metric, with a text as its value or with none.
  abbrev pub after_metric :
      String
      → Option String
      → Option StorageMode
      → Option Bytes
      → PrefixedStringBuf
      → PrefixedStringBuf
      → PrefixedStringBuf × PrefixedStringBuf
  after_metric name unit flags none fields metrics = (fields, metrics)
  after_metric name unit flags (some text) fields metrics =
      (push_raw_str (field name text) fields, declared name unit flags metrics)

  -- No panic, and those buffers, and a buffer for counts.
  abbrev pub AfterMetric :
      String
      → List (Observation float)
      → Option String
      → Option StorageMode
      → Option ℕ
      → PrefixedStringBuf
      → PrefixedStringBuf
      → PrefixedStringBuf
      → Option Bytes
      → Type 0
  AfterMetric name distribution unit flags multiplicity fields metrics counts value =
      let (fields', metrics') = after_metric name unit flags value fields metrics in
      (counts' : PrefixedStringBuf) × IsCounts counts'
      × (write_metric float printer name distribution unit flags multiplicity fields metrics counts
          ≡ some (fields', metrics', counts'))

  named_buf :
      (name : String) (fields : PrefixedStringBuf) (text : Bytes)
      → push_raw_str text
          (push_raw_str (codes ":") (push_raw_str (json name) (push_raw_str (codes ",") fields)))
        ≡ push_raw_str (field name text) fields
  named_buf name fields text = simp push_raw_str_twice

  write_metric-Writes :
      (name : String) (first : Observation float) (distribution : List (Observation float))
      (unit : Option String) (flags : Option StorageMode) (multiplicity : Option ℕ)
      (fields metrics counts : PrefixedStringBuf) (value : Option Bytes)
      → IsValid fields
      → Writes float printer value
          (push_raw_str (codes ":") (push_raw_str (json name) (push_raw_str (codes ",") fields)))
          (write_metric_value float printer name first distribution multiplicity fields counts)
      → AfterMetric name (first ∷ distribution) unit flags multiplicity fields metrics counts value
  unfolding write_metric
  write_metric-Writes name first distribution unit flags multiplicity fields metrics counts none hf
        (s, counts', e, hc) =
      (
        counts',
        hc,
        rw
            (
              e,
              named_buf name fields s,
              truncate-push_raw_str (field name s) fields hf,
              write_metric,
            )
            refl,
      )
  write_metric-Writes name first distribution unit flags multiplicity fields metrics counts
        (some text) hf (counts', e, hc) =
      (
        counts',
        hc,
        rw (e, named_buf name fields text, declare_lem name unit flags metrics, write_metric) refl,
      )

  -- Valid buffers being given, no assertion fails. When no observation is left, because there is
  -- none or none of them is finite once clamped, the fields and the declarations are as before. Else
  -- one field is written, the name with its value, and one declaration, but none in the mode without
  -- a metric. The value is the number itself for one unsigned or floating observation without a
  -- multiplicity, and else as many values as counts, with commas between them. The buffer of the
  -- counts can be used again.
  pub write_metric_lem :
      (name : String) (distribution : List (Observation float)) (unit : Option String)
      (flags : Option StorageMode) (multiplicity : Option ℕ)
      (fields metrics counts : PrefixedStringBuf)
      → IsValid fields
      → IsCounts counts
      → AfterMetric name distribution unit flags multiplicity fields metrics counts
          (metric_value float printer distribution multiplicity)
  unfolding write_metric write_metric_value
  write_metric_lem name [] unit flags multiplicity fields metrics counts hf hc = (counts, hc, refl)
  write_metric_lem name (first ∷ distribution) unit flags multiplicity fields metrics counts hf hc =
      let named =
        push_raw_str (codes ":") (push_raw_str (json name) (push_raw_str (codes ",") fields)) in
      write_metric-Writes name first distribution unit flags multiplicity fields metrics counts
        (metric_value float printer (first ∷ distribution) multiplicity) hf
        (write_value_lem float printer first distribution multiplicity named counts
          (push_raw_str-IsValid (codes ":")
            (push_raw_str (json name) (push_raw_str (codes ",") fields))
            (push_raw_str-IsValid (json name) (push_raw_str (codes ",") fields)
              (push_raw_str-IsValid (codes ",") fields hf)))
          hc)
