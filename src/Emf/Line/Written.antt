-- ===== src/Emf/Line/Written.antt =====
-- The loop of `finish` of metrique-writer-format-emf/src/emf.rs, and the line after it.
use metrique.Prelude.{
  ℕ, ◌+◌, ◌<◌, ◌≡◌, refl, sym, ap, ◌∙◌, Bool, true, false, not, ◌||◌, some, List, [], ◌∷◌, ◌++◌,
  map, length, length-append, String, codes, concat, append-nil, if◌then◌else◌, arith,
}
use metrique.Emf.Output.{Bytes, Output, done}
use metrique.Emf.Vectored.{IsWrite}
use metrique.Emf.Buf.{from_prefix, is_empty, push_raw_str}
use metrique.Emf.Entry.{Dimensions}
use metrique.Emf.Line.{Encoder, State, push_log_group_and_timestamp, dimension_fields}
use metrique.Emf.Line.Text.{IsEncoder}
use metrique.Emf.Line.Ended.{opening}
use metrique.Emf.Line.Contents.{
  Contents, Setup, is_nil, set_of, state_of, clear_prefix, is_empty-push,
}
use metrique.Emf.Line.Lines.{lines, set_text, plain_text, ended_set_text, plain_line}
use metrique.Emf.Line.Finish.{finished, Result, write_sets, write_plain}
use metrique.Emf.Line.Rounds.{
  Finishes, write_line_lem, Finishes-by, set_skipped, set_written, plain_written,
}

module _ (output : Output) (written : output.State → Bytes) (patience : output.State → ℕ)
    (keeps : IsWrite output written patience) (encoder : Encoder) where
  open output use {State as Out}

  module _ (encodes : IsEncoder encoder) (b : Setup) (each : List (List String)) (c : Contents)
      (unix : ℕ) where
    -- The state with which `finish` writes.
    abbrev pub completed : State
    completed =
        let s = state_of encoder encodes b each c in
        record s {
          decl_buf = push_log_group_and_timestamp encoder s.log_group_and_timestamp unix s.decl_buf;
          string_fields_buf = push_raw_str (codes "}\n") s.string_fields_buf;
        }

    abbrev text_of : Bool → List (Dimensions × Bytes × Bytes) → Bytes
    text_of emitted sets = concat (lines encoder encodes b each unix c emitted sets)

    write_plain_lem :
        (fuel : ℕ) (out : Out)
        → patience out + length (plain_text encoder encodes b each unix c ++ []) < fuel
        → Finishes output written patience keeps encoder
            (write_plain encoder output fuel completed (map encoder.json_array each) out)
            (plain_text encoder encodes b each unix c ++ [])
            out
    unfolding state_of push_raw_str push_log_group_and_timestamp from_prefix
    write_plain_lem fuel out h =
        let (dims, metrics, e, text) =
          plain_line encoder encodes b each unix c completed refl
            (ap (λ p. p.buf)
              (clear_prefix encoder encodes b each c.left
                (opening ++ encoder.json b.first ++ codes ",\"Dimensions\":[")))
            refl refl refl refl refl in
        Finishes-by output written patience keeps encoder
          (plain_written output written patience keeps encoder fuel completed
            (map encoder.json_array each) out dims metrics e)
          (ap (λ t. t ++ []) (sym text))
          (write_line_lem output written patience keeps encoder fuel _ []
            (λ out'. some (finished, out')) out (rw (text) h)
            (λ out' settled. (done, out', refl, (sym (append-nil (written out')), omega arith))))

    skipped_text :
        (emitted : Bool) (key : Dimensions) (metrics : Bytes)
        (sets : List (Dimensions × Bytes × Bytes))
        → text_of emitted ((key, metrics, []) ∷ sets) ≡ text_of emitted sets
    unfolding lines
    skipped_text emitted key metrics sets = refl

    written_text :
        (emitted : Bool) (key : Dimensions) (metrics : Bytes) (x : ℕ) (fields : Bytes)
        (sets : List (Dimensions × Bytes × Bytes))
        → text_of emitted ((key, metrics, x ∷ fields) ∷ sets)
          ≡ set_text encoder encodes b each unix c.strings (key, metrics, x ∷ fields)
            ++ text_of true sets
    unfolding lines
    written_text emitted key metrics x fields sets = refl

    strings_at : completed.string_fields_buf.buf ≡ c.strings ++ codes "}\n"
    unfolding state_of push_raw_str from_prefix
    strings_at = refl

    pub write_sets_lem :
        (fuel : ℕ) (next : Bool → Out → Result encoder output)
        (sets : List (Dimensions × Bytes × Bytes)) (emitted : Bool) (out : Out)
        → patience out + length (text_of emitted sets) < fuel
        → ((emitted : Bool) (out : Out)
            → patience out + length (text_of emitted []) < fuel
            → Finishes output written patience keeps encoder
                (next emitted out)
                (text_of emitted [])
                out)
        → Finishes output written patience keeps encoder
            (write_sets encoder output fuel completed unix emitted
              (map (set_of encoder encodes b each) sets)
              next
              out)
            (text_of emitted sets)
            out
    unfolding write_sets state_of
    write_sets_lem fuel next [] emitted out h after = after emitted out h
    write_sets_lem fuel next ((key, metrics, []) ∷ sets) emitted out h after =
        let (ended, e, fields_at, text) =
          ended_set_text encoder encodes b each unix c completed key metrics [] refl refl
            (strings_at) in
        Finishes-by output written patience keeps encoder
          (set_skipped output written patience keeps encoder fuel completed unix emitted
            (set_of encoder encodes b each (key, metrics, []))
            (map (set_of encoder encodes b each) sets) next out ended e
            (ap is_empty fields_at ∙ is_empty-push [] (codes "}" ++ dimension_fields encoder key)))
          (skipped_text emitted key metrics sets)
          (write_sets_lem fuel next sets emitted out
            (rw⁻¹ (skipped_text emitted key metrics sets) h) after)
    write_sets_lem fuel next ((key, metrics, x ∷ fields) ∷ sets) emitted out h after =
        let set : Dimensions × Bytes × Bytes = (key, metrics, x ∷ fields) in
        let (ended, e, fields_at, text) =
          ended_set_text encoder encodes b each unix c completed key metrics (x ∷ fields) refl refl
            strings_at in
        let bufs =
          ended.metrics_buf.buf ∷ ended.fields_buf.buf ∷ completed.string_fields_buf.buf ∷ [] in
        let whole : text_of emitted (set ∷ sets) ≡ concat bufs ++ text_of true sets =
          written_text emitted key metrics x fields sets
          ∙ ap (λ t. t ++ text_of true sets) (sym text) in
        Finishes-by output written patience keeps encoder
          (set_written output written patience keeps encoder fuel completed unix emitted
            (set_of encoder encodes b each set) (map (set_of encoder encodes b each) sets) next out
            ended e
            (ap is_empty fields_at
              ∙ is_empty-push (x ∷ fields) (codes "}" ++ dimension_fields encoder key)))
          whole
          (write_line_lem output written patience keeps encoder fuel bufs (text_of true sets)
            (write_sets encoder output fuel completed unix true
              (map (set_of encoder encodes b each) sets) next)
            out (omega (arith, h, ap length whole))
            (λ out' settled.
              write_sets_lem fuel next sets true out'
                (omega (arith, h, ap length whole, length-append (concat bufs) (text_of true sets)))
                after))

    -- What is done after the sets: the line without dimensions, if it has fields or is the only one.
    last_case :
        (fuel : ℕ) (chosen asked : Bool) (out : Out)
        → chosen ≡ asked
        → patience out
            + length (concat (if asked then plain_text encoder encodes b each unix c ∷ [] else []))
          < fuel
        → Finishes output written patience keeps encoder
            (if chosen
              then write_plain encoder output fuel completed (map encoder.json_array each) out
              else some (finished, out))
            (concat (if asked then plain_text encoder encodes b each unix c ∷ [] else []))
            out
    last_case fuel true true out e h = write_plain_lem fuel out h
    last_case fuel false false out e h =
        (done, out, refl, (sym (append-nil (written out)), omega arith))
    last_case fuel true false out e h = absurd (ground (arith, e))
    last_case fuel false true out e h = absurd (ground (arith, e))

    pub last_lem :
        (fuel : ℕ) (emitted : Bool) (out : Out)
        → patience out + length (text_of emitted []) < fuel
        → Finishes output written patience keeps encoder
            (if not emitted || not (is_empty completed.fields_buf)
              then write_plain encoder output fuel completed (map encoder.json_array each) out
              else some (finished, out))
            (text_of emitted [])
            out
    unfolding lines state_of
    last_lem fuel emitted out h =
        last_case fuel (not emitted || not (is_empty completed.fields_buf))
          (not emitted || not (is_nil c.fields)) out
          (ap (λ e. not emitted || not e) (is_empty-push c.fields (codes "}"))) h
