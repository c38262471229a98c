-- ===== src/Emf/Line/Formats.antt =====
-- What `finish` of metrique-writer-format-emf/src/emf.rs puts into the writer.
use metrique.Prelude.{
  ℕ, ◌+◌, ◌<◌, ◌≡◌, refl, false, not, ◌||◌, Option, none, some, List, map, length, String, concat,
  if◌then◌else◌,
}
use metrique.Emf.Output.{Bytes, Output}
use metrique.Emf.Vectored.{IsWrite}
use metrique.Emf.Buf.{is_empty}
use metrique.Emf.Entry.{EntryWriter, ValidationError}
use metrique.Emf.Entry.Calls as Calls
use metrique.Emf.Line.{Encoder}
use metrique.Emf.Line.Text.{IsEncoder}
use metrique.Emf.Line.Contents.{Contents, Setup, set_of, state_of}
use metrique.Emf.Line.Lines.{lines}
use metrique.Emf.Line.Order.{arrange, map-arrange}
use metrique.Emf.Line.Finish.{finished, invalid, Result, unwrap_or, write_sets, write_plain, finish}
use metrique.Emf.Line.Rounds.{Finishes, Finishes-by}
use metrique.Emf.Line.Written.{completed, write_sets_lem, last_lem}

module _ (output : Output) (written : output.State → Bytes) (patience : output.State → ℕ)
    (keeps : IsWrite output written patience) (encoder : Encoder) where
  open output use {State as Out}

  -- What becomes of an entry: its errors are returned and nothing is written, or the text is.
  abbrev pub Formats : Option (List ValidationError) → Result encoder output → Bytes → Out → Type 0
  Formats (some errors) run text out = run ≡ some (invalid errors, out)
  Formats none run text out = Finishes output written patience keeps encoder run text out

  module _ (encodes : IsEncoder encoder) (b : Setup) (each : List (List String)) (c : Contents)
      (w : EntryWriter) (order : List ℕ) (entry_dimensions : Option (List Bytes)) where
    finish_accepted :
        (fuel now : ℕ) (out : Out)
        → Calls.finish w ≡ none
        → unwrap_or (map encoder.json_array b.default_dimensions) entry_dimensions
          ≡ map encoder.json_array each
        → finish encoder output fuel order w
            (state_of encoder encodes b each c)
            entry_dimensions
            now
            out
          ≡ write_sets encoder output fuel
              (completed output written patience keeps encoder encodes b each c
                (unwrap_or now w.timestamp))
              (unwrap_or now w.timestamp)
              false
              (map (set_of encoder encodes b each) (arrange order c.sets))
              (λ emitted out'.
                if not emitted
                  || not (
                      is_empty
                        (completed output written patience keeps encoder encodes b each c
                          (unwrap_or now w.timestamp)).fields_buf)
                then write_plain encoder output fuel
                    (completed output written patience keeps encoder encodes b each c
                      (unwrap_or now w.timestamp))
                    (map encoder.json_array each)
                    out'
                else some (finished, out'))
              out
    unfolding finish state_of
    finish_accepted fuel now out e dims = rw (e, ← dims, map-arrange, finish) refl

    finish_cases :
        (fuel now : ℕ) (out : Out) (errors : Option (List ValidationError))
        → Calls.finish w ≡ errors
        → unwrap_or (map encoder.json_array b.default_dimensions) entry_dimensions
          ≡ map encoder.json_array each
        → patience out
            + length (
                concat (
                  lines encoder encodes b each
                    (unwrap_or now w.timestamp)
                    c
                    false
                    (arrange order c.sets)))
          < fuel
        → Formats errors
            (finish encoder output fuel order w
              (state_of encoder encodes b each c)
              entry_dimensions
              now
              out)
            (concat (
              lines encoder encodes b each
                (unwrap_or now w.timestamp)
                c
                false
                (arrange order c.sets)))
            out
    unfolding finish
    finish_cases fuel now out (some errors) e dims h = rw (e, finish) refl
    finish_cases fuel now out none e dims h =
        let unix = unwrap_or now w.timestamp in
        Finishes-by output written patience keeps encoder (finish_accepted fuel now out e dims) refl
          (write_sets_lem output written patience keeps encoder encodes b each c unix fuel _
            (arrange order c.sets) false out h
            (λ emitted out' h'.
              last_lem output written patience keeps encoder encodes b each c unix fuel emitted out'
                h'))

    -- The buffers holding `c`, and the arrays of dimensions those of `each`, an entry with errors is
    -- refused with them and nothing is written. Else, with more fuel than the interruptions left and
    -- the bytes, what is written is the lines of `c`: one for each set with fields and the one
    -- without dimensions of its own, if that has fields or is the only one, each with a directive for
    -- every namespace, the sets in the `order`. With an I/O error a proper first part of it is. Nothing panics.
    pub finish_lem :
        (fuel now : ℕ) (out : Out)
        → unwrap_or (map encoder.json_array b.default_dimensions) entry_dimensions
          ≡ map encoder.json_array each
        → patience out
            + length (
                concat (
                  lines encoder encodes b each
                    (unwrap_or now w.timestamp)
                    c
                    false
                    (arrange order c.sets)))
          < fuel
        → Formats
            (Calls.finish w)
            (finish encoder output fuel order w
              (state_of encoder encodes b each c)
              entry_dimensions
              now
              out)
            (concat (
              lines encoder encodes b each
                (unwrap_or now w.timestamp)
                c
                false
                (arrange order c.sets)))
            out
    finish_lem fuel now out dims h = finish_cases fuel now out (Calls.finish w) refl dims h
