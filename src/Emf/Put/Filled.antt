-- ===== src/Emf/Put/Filled.antt =====
-- The `State` of metrique-writer-format-emf/src/emf.rs after the values of an entry, by its contents.
use metrique.Prelude.{
  ℕ, ◌≡◌, refl, ap, append_assoc, Bool, true, false, ◌||◌, Option, some, List, [], ◌∷◌, ◌++◌, map,
  String, codes, Bool-cases, inl, inr,
}
use metrique.Histogram.{Float, Observation}
use metrique.Emf.Output.{Bytes}
use metrique.Emf.Buf.{PrefixedStringBuf, from_prefix, push_raw_str, push_raw_str_twice}
use metrique.Emf.Metric.{Printer, StorageMode}
use metrique.Emf.Listed.{IsCounts, metric_value}
use metrique.Emf.Values.{joined}
use metrique.Emf.Elements.{not_empty, element_text, write_values_lem}
use metrique.Emf.Entry.{dimension_set_key, is_none}
use metrique.Emf.Line.{Encoder, State, new_set}
use metrique.Emf.Line.Text.{IsEncoder}
use metrique.Emf.Line.Contents.{Contents, Setup, set_of, state_of}
use metrique.Emf.Put.{
  Put, put_string, put_values, put_metric, Buffers, write_set, put_in_set, put_globally, put,
  put_all,
}
use metrique.Emf.Put.Grown.{
  measured, from_prefix-IsValid, write_metric-push, grow_sets, Changes, update_set-grow_sets,
}

module _ (float : Float) (printer : Printer float) (allow_ignored_dimensions : Bool)
    (multiplicity : Option ℕ) where
  open printer use {json}

  -- The change of the declarations and the fields that a metric makes.
  abbrev pub change_of :
      String
      → List (Observation float)
      → Option String
      → Option StorageMode
      → Bytes × Bytes
      → Bytes × Bytes
  change_of name distribution unit flags =
      measured float printer name unit flags (metric_value float printer distribution multiplicity)

  -- What each value adds: a string and a list to the fields of all lines, a metric to one line.
  unfoldable pub fill : Put float → Contents → Contents
  unfolding grow_sets
  fill (put_string name value) c = record c {
    strings = c.strings ++ (codes "," ++ json name ++ codes ":" ++ json value);
  }
  fill (put_values name values) c = record c {
    strings =
        c.strings
        ++ (codes ","
            ++ json name
            ++ codes ":"
            ++ codes "["
            ++ joined (not_empty (map (element_text float printer) values))
            ++ codes "]");
  }
  fill (put_metric name distribution unit dimensions flags) c =
      elim (allow_ignored_dimensions || is_none dimensions) [
        | true ↦
            let held = change_of name distribution unit flags (c.metrics, c.fields) in
            record c { metrics = held.0; fields = held.1 }
        | false ↦ record c {
          sets =
              grow_sets (change_of name distribution unit flags) (dimension_set_key dimensions)
                c.sets;
        }
      ]

  unfoldable pub fill_all : List (Put float) → Contents → Contents
  unfolding fill
  fill_all [] c = c
  fill_all (x ∷ xs) c = fill_all xs (fill x c)

  module _ (encoder : Encoder) (encodes : IsEncoder encoder) (b : Setup)
      (each : List (List String)) where
    abbrev at : Contents → State
    at c = state_of encoder encodes b each c

    -- The state filled, and a buffer for counts.
    abbrev pub Fills : Option Buffers → Contents → Type 0
    Fills run c =
        (counts : PrefixedStringBuf) × IsCounts counts
        × (run ≡ some (state_of encoder encodes b each c, counts))

    write_set-Changes :
        (name : String) (distribution : List (Observation float)) (unit : Option String)
        (flags : Option StorageMode) (counts : PrefixedStringBuf)
        → IsCounts counts
        → Changes encoder encodes b each
            (write_set float printer encoder name distribution unit flags multiplicity counts)
            (change_of name distribution unit flags)
    unfolding write_set set_of new_set from_prefix
    write_set-Changes name distribution unit flags counts h key held =
        let new = new_set encoder (encoder.json b.first) (map encoder.json_array each) key in
        let (counts', h', e) =
          write_metric-push float printer name distribution unit flags multiplicity held.0 held.1
            new.fields_buf.buf new.metrics_buf.buf counts h in
        (counts', h', rw (e, write_set) refl)

    push_four :
        (a b c d s : Bytes) (buf : PrefixedStringBuf)
        → push_raw_str d (push_raw_str c (push_raw_str b (push_raw_str a (push_raw_str s buf))))
          ≡ push_raw_str (s ++ (a ++ b ++ c ++ d)) buf
    push_four a b c d s buf = simp (push_raw_str_twice, append_assoc)

    pub put-fill :
        (x : Put float) (c : Contents) (counts : PrefixedStringBuf)
        → IsCounts counts
        → Fills
            (put float printer encoder allow_ignored_dimensions multiplicity
              (map encoder.json_array each)
              x
              (at c, counts))
            (fill x c)
    unfolding put state_of fill
    put-fill (put_string name value) c counts h = (
      counts,
      h,
      ap (λ strings. some (record (at c) { string_fields_buf = strings }, counts))
          (push_four (codes ",") (json name) (codes ":") (json value) c.strings (from_prefix [])),
    )
    put-fill (put_values name values) c counts h =
        let e =
          write_values_lem float printer name values (push_raw_str c.strings (from_prefix []))
            (from_prefix-IsValid c.strings []) in
        (
          counts,
          h,
          rw (e, put)
              (ap (λ strings. some (record (at c) { string_fields_buf = strings }, counts))
                (push_raw_str_twice c.strings _ (from_prefix []))),
        )
    put-fill (put_metric name distribution unit dimensions flags) c counts h =
        elim (Bool-cases (allow_ignored_dimensions || is_none dimensions)) [
          | inl global ↦
              let (counts', h', e) =
                write_metric-push float printer name distribution unit flags multiplicity c.metrics
                  c.fields (codes "}") (codes "],\"Metrics\":[") counts h in
              (counts', h', rw (global, e, put, put_globally, fill) refl)
          | inr own ↦
              let (counts', h', e) =
                update_set-grow_sets encoder encodes b each
                  (write_set float printer encoder name distribution unit flags multiplicity counts)
                  (change_of name distribution unit flags) (dimension_set_key dimensions) c.sets
                  (write_set-Changes name distribution unit flags counts h) in
              (counts', h', rw (own, e, put, put_in_set, fill) refl)
        ]

    -- No assertion fails while the values of an entry are written, and the state is then as filled.
    pub put_all-fill_all :
        (xs : List (Put float)) (c : Contents) (counts : PrefixedStringBuf)
        → IsCounts counts
        → Fills
            (put_all float printer encoder allow_ignored_dimensions multiplicity
              (map encoder.json_array each)
              xs
              (at c, counts))
            (fill_all xs c)
    unfolding put_all fill_all
    put_all-fill_all [] c counts h = (counts, h, refl)
    put_all-fill_all (x ∷ xs) c counts h =
        let (counts', h', e) = put-fill x c counts h in
        let (counts'', h'', e') = put_all-fill_all xs (fill x c) counts' h' in
        (counts'', h'', rw (e, put_all) e')
