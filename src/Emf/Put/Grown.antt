-- ===== src/Emf/Put/Grown.antt =====
-- What stands in the buffers of metrique-writer-format-emf/src/emf.rs after the values of an entry.
use metrique.Prelude.{
  ℕ, ◌≡◌, refl, sym, ap, ap₂, ◌∙◌, Option, none, some, List, [], ◌∷◌, ◌++◌, map, String, codes,
  if◌then◌else◌, Bool-cases, inl, inr, length-append, arith,
}
use metrique.Histogram.{Float, Observation}
use metrique.Emf.Output.{Bytes}
use metrique.Emf.Buf.{
  PrefixedStringBuf, from_prefix, is_empty, push_raw_str, push_raw_str_twice, push_raw_str_nil,
  IsValid,
}
use metrique.Emf.Metric.{Printer, StorageMode, high_storage_resolution, no_metric, write_metric}
use metrique.Emf.Listed.{IsCounts, metric_value}
use metrique.Emf.Fields.{
  write_metric_lem, field, unit_text, resolution_text, after_metric, declared,
}
use metrique.Emf.Entry.{Dimensions, equivalent}
use metrique.Emf.Line.{Encoder, MetricsForDimensionSet, new_set}
use metrique.Emf.Line.Text.{IsEncoder}
use metrique.Emf.Line.Contents.{Setup, is_nil, set_of, is_empty-push}
use metrique.Emf.Put.{update_set}

pub from_prefix-IsValid : (s prefix : Bytes) → IsValid (push_raw_str s (from_prefix prefix))
unfolding from_prefix push_raw_str
from_prefix-IsValid s prefix = record { kept = omega (arith, length-append prefix s) }

module _ (float : Float) (printer : Printer float) where
  open printer use {json}

  -- The declarations and the fields, with a metric of this value more.
  abbrev pub declared_more : String → Option String → Option StorageMode → Bytes → Bytes
  declared_more name unit (some no_metric) metrics = metrics
  declared_more name unit flags metrics =
      metrics
      ++ ((if is_nil metrics then [] else codes ",")
          ++ codes "{\"Name\":"
          ++ json name
          ++ unit_text float printer unit
          ++ resolution_text float printer flags)

  abbrev pub measured :
      String → Option String → Option StorageMode → Option Bytes → Bytes × Bytes → Bytes × Bytes
  measured name unit flags none (metrics, fields) = (metrics, fields)
  measured name unit flags (some text) (metrics, fields) =
      (declared_more name unit flags metrics, fields ++ field float printer name text)

  declared_text :
      (name : String) (unit : Option String) (resolution metrics prefix : Bytes)
      → push_raw_str
          ((if is_empty (push_raw_str metrics (from_prefix prefix)) then [] else codes ",")
            ++ codes "{\"Name\":"
            ++ json name
            ++ unit_text float printer unit
            ++ resolution)
          (push_raw_str metrics (from_prefix prefix))
        ≡ push_raw_str
            (metrics
              ++ ((if is_nil metrics then [] else codes ",")
                  ++ codes "{\"Name\":"
                  ++ json name
                  ++ unit_text float printer unit
                  ++ resolution))
            (from_prefix prefix)
  declared_text name unit resolution metrics prefix =
      ap
        (λ e.
          push_raw_str
            ((if e then [] else codes ",")
              ++ codes "{\"Name\":"
              ++ json name
              ++ unit_text float printer unit
              ++ resolution)
            (push_raw_str metrics (from_prefix prefix)))
        (is_empty-push metrics prefix)
      ∙ push_raw_str_twice metrics
          ((if is_nil metrics then [] else codes ",")
            ++ codes "{\"Name\":"
            ++ json name
            ++ unit_text float printer unit
            ++ resolution)
          (from_prefix prefix)

  declared-push :
      (name : String) (unit : Option String) (flags : Option StorageMode) (metrics prefix : Bytes)
      → declared float printer name unit flags (push_raw_str metrics (from_prefix prefix))
        ≡ push_raw_str (declared_more name unit flags metrics) (from_prefix prefix)
  declared-push name unit (some no_metric) metrics prefix = refl
  declared-push name unit none metrics prefix = declared_text name unit (codes "}") metrics prefix
  declared-push name unit (some high_storage_resolution) metrics prefix =
      declared_text name unit (codes ",\"StorageResolution\":1}") metrics prefix

  after-measured :
      (name : String) (unit : Option String) (flags : Option StorageMode) (value : Option Bytes)
      (metrics fields p q : Bytes)
      → after_metric float printer name unit flags value
          (push_raw_str fields (from_prefix p))
          (push_raw_str metrics (from_prefix q))
        ≡ (
          push_raw_str (measured name unit flags value (metrics, fields)).1 (from_prefix p),
          push_raw_str (measured name unit flags value (metrics, fields)).0 (from_prefix q),
        )
  after-measured name unit flags none metrics fields p q = refl
  after-measured name unit flags (some text) metrics fields p q =
      ap₂ (λ a b. (a, b))
        (push_raw_str_twice fields (field float printer name text) (from_prefix p))
        (declared-push name unit flags metrics q)

  -- A metric written to buffers that hold `metrics` and `fields`.
  pub write_metric-push :
      (name : String) (distribution : List (Observation float)) (unit : Option String)
      (flags : Option StorageMode) (multiplicity : Option ℕ) (metrics fields p q : Bytes)
      (counts : PrefixedStringBuf)
      → IsCounts counts
      → (counts' : PrefixedStringBuf) × IsCounts counts'
        × (write_metric float printer name distribution unit flags multiplicity
              (push_raw_str fields (from_prefix p))
              (push_raw_str metrics (from_prefix q))
              counts
            ≡ some (
              push_raw_str
                  (measured name unit flags
                    (metric_value float printer distribution multiplicity)
                    (metrics, fields)).1
                  (from_prefix p),
              push_raw_str
                  (measured name unit flags
                    (metric_value float printer distribution multiplicity)
                    (metrics, fields)).0
                  (from_prefix q),
              counts',
            ))
  write_metric-push name distribution unit flags multiplicity metrics fields p q counts h =
      let (counts', h', e) =
        write_metric_lem float printer name distribution unit flags multiplicity
          (push_raw_str fields (from_prefix p)) (push_raw_str metrics (from_prefix q)) counts
          (from_prefix-IsValid fields p) h in
      (
        counts',
        h',
        e
            ∙ ap (λ p. some (p.0, p.1, counts'))
                (after-measured name unit flags
                  (metric_value float printer distribution multiplicity) metrics fields p q),
      )

-- The sets with that of a key changed, which comes last if it is new.
unfoldable pub grow_sets :
    (Bytes × Bytes → Bytes × Bytes)
    → Dimensions
    → List (Dimensions × Bytes × Bytes)
    → List (Dimensions × Bytes × Bytes)
grow_sets change key [] = (key, (change ([], [])).0, (change ([], [])).1) ∷ []
grow_sets change key ((other, metrics, fields) ∷ sets) =
    let rest = grow_sets change key sets in
    let held = change (metrics, fields) in
    if equivalent key other then (other, held.0, held.1) ∷ sets else (other, metrics, fields) ∷ rest

module _ (encoder : Encoder) (encodes : IsEncoder encoder) (b : Setup)
    (each : List (List String)) where
  abbrev pub set_at : Dimensions → Bytes × Bytes → MetricsForDimensionSet
  set_at key held = (set_of encoder encodes b each (key, held.0, held.1)).1

  new_set-empty :
      (key : Dimensions)
      → new_set encoder (encoder.json b.first) (map encoder.json_array each) key
        ≡ set_at key ([], [])
  unfolding set_of new_set
  new_set-empty key =
      let new = new_set encoder (encoder.json b.first) (map encoder.json_array each) key in
      ap₂ (λ f m. record new { fields_buf = f; metrics_buf = m })
        (sym (push_raw_str_nil new.fields_buf)) (sym (push_raw_str_nil new.metrics_buf))

  -- A change of the buffers of one set, whatever they hold.
  abbrev pub Changes :
      (MetricsForDimensionSet → Option (MetricsForDimensionSet × PrefixedStringBuf))
      → (Bytes × Bytes → Bytes × Bytes)
      → Type 0
  Changes f change =
      (key : Dimensions) (held : Bytes × Bytes)
      → (counts : PrefixedStringBuf) × IsCounts counts
        × (f (set_at key held) ≡ some (set_at key (change held), counts))

  pub update_set-grow_sets :
      (f : MetricsForDimensionSet → Option (MetricsForDimensionSet × PrefixedStringBuf))
      (change : Bytes × Bytes → Bytes × Bytes) (key : Dimensions)
      (sets : List (Dimensions × Bytes × Bytes))
      → Changes f change
      → (counts : PrefixedStringBuf) × IsCounts counts
        × (update_set f key
              (new_set encoder (encoder.json b.first) (map encoder.json_array each) key)
              (map (set_of encoder encodes b each) sets)
            ≡ some (map (set_of encoder encodes b each) (grow_sets change key sets), counts))
  unfolding update_set grow_sets set_of
  update_set-grow_sets f change key [] changes =
      let (counts, h, e) = changes key ([], []) in
      (counts, h, ap (λ new. update_set f key new []) (new_set-empty key) ∙ rw (e, update_set) refl)
  update_set-grow_sets f change key ((other, metrics, fields) ∷ sets) changes =
      elim (Bool-cases (equivalent key other)) [
        | inl same ↦
            let (counts, h, e) = changes other (metrics, fields) in
            (counts, h, rw (same, e, update_set) refl)
        | inr different ↦
            let (counts, h, e) = update_set-grow_sets f change key sets changes in
            (counts, h, rw (different, e, update_set) refl)
      ]
