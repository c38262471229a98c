-- ===== src/Emf/Line/Rounds.antt =====
-- One line of `finish` of metrique-writer-format-emf/src/emf.rs, and what is done after it.
use metrique.Prelude.{
  ℕ, ◌+◌, ◌≤◌, ◌<◌, ◌≡◌, refl, sym, ap, ◌∙◌, Bool, true, false, some, List, [], ◌∷◌, ◌++◌, length,
  take-append, drop-append, take-append_within, length-append, concat, arith,
}
use metrique.Emf.Output.{Bytes, Output, Outcome, done, failed, panicked, write_all_vectored}
use metrique.Emf.Vectored.{IsWrite, Ends, EndsWell, Ends-accepted, write_all_vectored_lem}
use metrique.Emf.Buf.{PrefixedStringBuf, is_empty}
use metrique.Emf.Entry.{Dimensions}
use metrique.Emf.Line.{Encoder, MetricsForDimensionSet, State, end_set, end_plain}
use metrique.Emf.Line.Finish.{
  Finished, finished, invalid, io, Result, unwrap_or, write_line, write_sets, write_plain, finish,
}
use metrique.Emf.Line.Finish as Finish

-- The result of `finish` for that of the last write.
abbrev pub of_outcome : Outcome → Finished
of_outcome done = finished
of_outcome (failed e) = io e
of_outcome panicked = Finish.panicked

module _ (output : Output) (written : output.State → Bytes) (patience : output.State → ℕ)
    (keeps : IsWrite output written patience) (encoder : Encoder) where
  open output use {State as Out}

  -- All the bytes are written, or with an I/O error a proper first part of them.
  abbrev pub Finishes : Result encoder output → Bytes → Out → Type 0
  Finishes run bytes out =
      (outcome : Outcome) × (out' : Out) × (run ≡ some (of_outcome outcome, out'))
      × Ends output written patience keeps outcome bytes out out'

  -- A line and what is done after it.
  Finishes-next :
      (fuel : ℕ) (bufs : List Bytes) (rest : Bytes) (next : Out → Result encoder output) (out : Out)
      → ((out' : Out) → patience out' ≤ patience out → Finishes (next out') rest out')
      → EndsWell output written patience keeps
          (write_all_vectored output fuel bufs out)
          (concat bufs)
          out
      → Finishes (write_line encoder output fuel bufs next out) (concat bufs ++ rest) out
  unfolding write_line
  Finishes-next fuel bufs rest next out after (done, out', run, (all, settled)) =
      let (outcome, out'', run', ends) = after out' settled in
      (
        outcome,
        out'',
        rw (run, write_line) run',
        Ends-accepted output written patience keeps outcome (concat bufs ++ rest)
            (length (concat bufs)) out out' out'' (omega (arith, length-append (concat bufs) rest))
            (all ∙ ap (λ t. written out ++ t) (sym (take-append (concat bufs) rest))) settled
            (rw (drop-append (concat bufs) rest) ends),
      )
  Finishes-next fuel bufs rest next out after (failed e, out', run, (other, k, less, some_of)) = (
    failed e,
    out',
    rw (run, write_line) refl,
    (
      other,
      k,
      omega (arith, length-append (concat bufs) rest),
      some_of
          ∙ ap (λ t. written out ++ t)
              (sym (take-append_within k (concat bufs) rest (omega arith))),
    ),
  )
  Finishes-next fuel bufs rest next out after (panicked, out', run, ends) = absurd ends

  pub write_line_lem :
      (fuel : ℕ) (bufs : List Bytes) (rest : Bytes) (next : Out → Result encoder output) (out : Out)
      → patience out + length (concat bufs ++ rest) < fuel
      → ((out' : Out) → patience out' ≤ patience out → Finishes (next out') rest out')
      → Finishes (write_line encoder output fuel bufs next out) (concat bufs ++ rest) out
  write_line_lem fuel bufs rest next out h after = Finishes-next fuel bufs rest next out after (
      write_all_vectored_lem output written patience keeps fuel bufs out
        (omega (arith, length-append (concat bufs) rest)))

  -- A run by another name, and a text.
  pub Finishes-by :
      {run run' : Result encoder output} {bytes bytes' : Bytes} {out : Out}
      → run ≡ run'
      → bytes ≡ bytes'
      → Finishes run' bytes' out
      → Finishes run bytes out
  Finishes-by at same h = rw (at, same) h

  -- A set that is not written, one that is, and the line without dimensions.
  pub set_skipped :
      (fuel : ℕ) (s : State) (unix : ℕ) (emitted : Bool) (set : Dimensions × MetricsForDimensionSet)
      (sets : List (Dimensions × MetricsForDimensionSet))
      (next : Bool → Out → Result encoder output) (out : Out) (ended : MetricsForDimensionSet)
      → end_set encoder s unix set.1 ≡ some ended
      → is_empty ended.fields_buf ≡ true
      → write_sets encoder output fuel s unix emitted (set ∷ sets) next out
        ≡ write_sets encoder output fuel s unix emitted sets next out
  unfolding write_sets
  set_skipped fuel s unix emitted set sets next out ended e empty = rw (e, empty, write_sets) refl

  pub set_written :
      (fuel : ℕ) (s : State) (unix : ℕ) (emitted : Bool) (set : Dimensions × MetricsForDimensionSet)
      (sets : List (Dimensions × MetricsForDimensionSet))
      (next : Bool → Out → Result encoder output) (out : Out) (ended : MetricsForDimensionSet)
      → end_set encoder s unix set.1 ≡ some ended
      → is_empty ended.fields_buf ≡ false
      → write_sets encoder output fuel s unix emitted (set ∷ sets) next out
        ≡ write_line encoder output fuel
            (ended.metrics_buf.buf ∷ ended.fields_buf.buf ∷ s.string_fields_buf.buf ∷ [])
            (write_sets encoder output fuel s unix true sets next)
            out
  unfolding write_sets
  set_written fuel s unix emitted set sets next out ended e some_fields =
      rw (e, some_fields, write_sets) refl

  pub plain_written :
      (fuel : ℕ) (s : State) (dimensions : List Bytes) (out : Out)
      (dims metrics : PrefixedStringBuf)
      → end_plain encoder s dimensions ≡ some (dims, metrics)
      → write_plain encoder output fuel s dimensions out
        ≡ write_line encoder output fuel
            (dims.buf ∷ metrics.buf ∷ s.decl_buf.buf ∷ s.fields_buf.buf ∷ s.string_fields_buf.buf
              ∷ [])
            (λ out'. some (finished, out'))
            out
  unfolding write_plain
  plain_written fuel s dimensions out dims metrics e = rw (e, write_plain) refl
