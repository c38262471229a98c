-- ===== src/Emf/Put/Format.antt =====
-- `Emf::format_with_multiplicity` of metrique-writer-format-emf/src/emf.rs: the buffers are cleared,
-- the values of the entry are written to them, and `finish` writes the lines.
use metrique.Prelude.{
  ℕ, ◌+◌, ◌<◌, ◌≡◌, refl, ap, ◌∙◌, false, Option, none, some, List, [], ◌∷◌, ◌++◌, ap₂, sym,
  map-append, map, length, concat, String,
}
use metrique.Histogram.{Float}
use metrique.Emf.Output.{Bytes, Output}
use metrique.Emf.Vectored.{IsWrite}
use metrique.Emf.Buf.{PrefixedStringBuf}
use metrique.Emf.Metric.{Printer}
use metrique.Emf.Listed.{IsCounts}
use metrique.Emf.Entry.{EntryWriter}
use metrique.Emf.Entry.Calls as Calls
use metrique.Emf.Line.{Encoder, State, reset, extend_with_strings}
use metrique.Emf.Line.Text.{IsEncoder, extend_with_strings-array}
use metrique.Emf.Line.Contents.{Contents, Setup, nothing, state_of, reset_lem}
use metrique.Emf.Line.Lines.{lines}
use metrique.Emf.Line.Order.{arrange}
use metrique.Emf.Line.Finish.{Result, panicked, unwrap_or, finish}
use metrique.Emf.Line.Formats.{Formats, finish_lem}
use metrique.Emf.Put.{Put, put_all, entry_arrays, entry_dimensions_of}
use metrique.Emf.Put.Filled.{fill_all, put_all-fill_all}

-- `w` is the `EntryWriter` after the calls of the entry, `entry_dimensions` what they set, and `puts`
-- the values that have a name which `validate_name` accepts.
module _ (float : Float) (printer : Printer float) (encoder : Encoder) (output : Output) (fuel : ℕ)
    (w : EntryWriter) (entry_dimensions : Option (List Bytes)) (puts : List (Put float))
    (multiplicity : Option ℕ) (order : List ℕ) (now : ℕ) where
  unfoldable pub write_and_finish : State → PrefixedStringBuf → output.State → Result encoder output
  unfolding put_all finish
  write_and_finish s counts out =
      elim (put_all float printer encoder w.allow_ignored_dimensions multiplicity
        (unwrap_or s.each_dimensions_str entry_dimensions) puts (s, counts)) [
          | none ↦ some (panicked, out)
          | some (s', counts') ↦ finish encoder output fuel order w s' entry_dimensions now out
        ]

-- `dim_sets` is the dimensions that the entry configures, when it does and they are accepted, and
-- `order` that in which the hash map of the dimension sets is walked.
module _ (float : Float) (printer : Printer float) (encoder : Encoder) (output : Output) (fuel : ℕ)
    (w : EntryWriter) (dim_sets : Option (List (List String))) (puts : List (Put float))
    (multiplicity : Option ℕ) (order : List ℕ) (now : ℕ) where
  unfoldable pub format_with_multiplicity :
      State → PrefixedStringBuf → output.State → Result encoder output
  unfolding reset write_and_finish
  format_with_multiplicity state counts out =
      let s = reset encoder state in
      write_and_finish float printer encoder output fuel w
        (entry_dimensions_of encoder dim_sets s.each_dimensions_str) puts multiplicity order now s
        counts out

-- The dimensions of an entry, those of the builder when it configures none.
abbrev pub crossed : List (List String) → List (List String) → List (List String)
crossed dim_sets [] = []
crossed dim_sets (names ∷ each) = map (λ more. names ++ more) dim_sets ++ crossed dim_sets each

abbrev pub each_of : Option (List (List String)) → List (List String) → List (List String)
each_of none each = each
each_of (some dim_sets) each = crossed dim_sets each

module _ (encoder : Encoder) (encodes : IsEncoder encoder) where
  extended_arrays :
      (names : List String) (dim_sets : List (List String))
      → map (λ more. extend_with_strings encoder more (encoder.json_array names)) dim_sets
        ≡ map encoder.json_array (map (λ more. names ++ more) dim_sets)
  extended_arrays names [] = refl
  extended_arrays names (more ∷ dim_sets) =
      ap₂ (λ x xs. x ∷ xs) (extend_with_strings-array encoder encodes names more)
        (extended_arrays names dim_sets)

  entry_arrays-crossed :
      (dim_sets each : List (List String))
      → entry_arrays encoder dim_sets (map encoder.json_array each)
        ≡ map encoder.json_array (crossed dim_sets each)
  unfolding entry_arrays
  entry_arrays-crossed dim_sets [] = refl
  entry_arrays-crossed dim_sets (names ∷ each) =
      ap₂ (λ xs ys. xs ++ ys) (extended_arrays names dim_sets) (entry_arrays-crossed dim_sets each)
      ∙ sym (
          map-append encoder.json_array (map (λ more. names ++ more) dim_sets)
            (crossed dim_sets each))

  each_of_lem :
      (dim_sets : Option (List (List String))) (each : List (List String))
      → unwrap_or
          (map encoder.json_array each)
          (entry_dimensions_of encoder dim_sets (map encoder.json_array each))
        ≡ map encoder.json_array (each_of dim_sets each)
  each_of_lem none each = refl
  each_of_lem (some dim_sets) each = entry_arrays-crossed dim_sets each

module _ (float : Float) (printer : Printer float) (encoder : Encoder) (encodes : IsEncoder encoder)
    (output : Output) (written : output.State → Bytes) (patience : output.State → ℕ)
    (keeps : IsWrite output written patience) (b : Setup) (each : List (List String))
    (w : EntryWriter) (entry_dimensions : Option (List Bytes)) (puts : List (Put float))
    (multiplicity : Option ℕ) (order : List ℕ) where
  -- What stands in the buffers at the end.
  abbrev pub filled : Contents → Contents
  filled c = fill_all float printer w.allow_ignored_dimensions multiplicity puts (nothing c.left)

  formatted :
      (fuel now : ℕ) (before : List (List String)) (c : Contents)
      (counts counts' : PrefixedStringBuf) (out : output.State)
      → unwrap_or (map encoder.json_array b.default_dimensions) entry_dimensions
        ≡ map encoder.json_array each
      → put_all float printer encoder w.allow_ignored_dimensions multiplicity
          (map encoder.json_array each)
          puts
          (state_of encoder encodes b each (nothing c.left), counts)
        ≡ some (state_of encoder encodes b each (filled c), counts')
      → write_and_finish float printer encoder output fuel w entry_dimensions puts multiplicity
          order now
          (reset encoder (state_of encoder encodes b before c))
          counts
          out
        ≡ finish encoder output fuel order w
            (state_of encoder encodes b each (filled c))
            entry_dimensions
            now
            out
  unfolding write_and_finish state_of
  formatted fuel now before c counts counts' out dims e =
      let put =
        ap
          (λ a.
            put_all float printer encoder w.allow_ignored_dimensions multiplicity a puts
              (state_of encoder encodes b each (nothing c.left), counts))
          dims
        ∙ e in
      ap
        (λ s.
          write_and_finish float printer encoder output fuel w entry_dimensions puts multiplicity
            order now s counts out)
        (reset_lem encoder encodes b before c)
      ∙ rw (put, write_and_finish) refl

  write_and_finish_lem :
      (fuel now : ℕ) (before : List (List String)) (c : Contents) (counts : PrefixedStringBuf)
      (out : output.State)
      → IsCounts counts
      → unwrap_or (map encoder.json_array b.default_dimensions) entry_dimensions
        ≡ map encoder.json_array each
      → patience out
          + length (
              concat (
                lines encoder encodes b each
                  (unwrap_or now w.timestamp)
                  (filled c)
                  false
                  (arrange order (filled c).sets)))
        < fuel
      → Formats output written patience keeps encoder
          (Calls.finish w)
          (write_and_finish float printer encoder output fuel w entry_dimensions puts multiplicity
            order now
            (reset encoder (state_of encoder encodes b before c))
            counts
            out)
          (concat (
            lines encoder encodes b each
              (unwrap_or now w.timestamp)
              (filled c)
              false
              (arrange order (filled c).sets)))
          out
  write_and_finish_lem fuel now before c counts out h dims enough =
      let (counts', h', e) =
        put_all-fill_all float printer w.allow_ignored_dimensions multiplicity encoder encodes b
          each puts (nothing c.left) counts h in
      rw (formatted fuel now before c counts counts' out dims e) (
        finish_lem output written patience keeps encoder encodes b each (filled c) w order
          entry_dimensions fuel now out dims enough)

module _ (float : Float) (printer : Printer float) (encoder : Encoder) (encodes : IsEncoder encoder)
    (output : Output) (written : output.State → Bytes) (patience : output.State → ℕ)
    (keeps : IsWrite output written patience) (b : Setup) (w : EntryWriter)
    (dim_sets : Option (List (List String))) (puts : List (Put float)) (multiplicity : Option ℕ)
    (order : List ℕ) where
  -- The lines of an entry, by its values, with the timestamp `unix`.
  abbrev pub lines_of : ℕ → Contents → Bytes
  lines_of unix c =
      let held =
        fill_all float printer w.allow_ignored_dimensions multiplicity puts (nothing c.left) in
      concat (
        lines encoder encodes b (each_of dim_sets b.default_dimensions) unix held false
          (arrange order held.sets))

  -- Whatever an entry before has left in the buffers, an entry with errors is refused with them and
  -- nothing is written. Else, given more fuel than the interruptions left and the bytes, the lines of
  -- its values are written, those of the dimension sets in any order that the hash map is walked in,
  -- where a string or a list is a field of every line, and a metric a field and a declaration of the
  -- line of its dimensions. With an I/O error a proper first part of them is. Nothing panics.
  pub format_with_multiplicity_lem :
      (fuel now : ℕ) (before : List (List String)) (c : Contents) (counts : PrefixedStringBuf)
      (out : output.State)
      → IsCounts counts
      → patience out + length (lines_of (unwrap_or now w.timestamp) c) < fuel
      → Formats output written patience keeps encoder
          (Calls.finish w)
          (format_with_multiplicity float printer encoder output fuel w dim_sets puts multiplicity
            order now
            (state_of encoder encodes b before c)
            counts
            out)
          (lines_of (unwrap_or now w.timestamp) c)
          out
  unfolding format_with_multiplicity reset state_of
  format_with_multiplicity_lem fuel now before c counts out h enough =
      write_and_finish_lem float printer encoder encodes output written patience keeps b
        (each_of dim_sets b.default_dimensions) w
        (entry_dimensions_of encoder dim_sets (map encoder.json_array b.default_dimensions)) puts
        multiplicity order fuel now before c counts out h
        (each_of_lem encoder encodes dim_sets b.default_dimensions) enough
