-- ===== src/Emf/Line/Finish.antt =====
-- `EntryWriter::finish` of metrique-writer-format-emf/src/emf.rs, with the writer of the caller.
use metrique.Prelude.{
  ℕ, Bool, true, false, not, ◌||◌, Option, none, some, List, [], ◌∷◌, codes, if◌then◌else◌,
}
use metrique.Emf.Output.{Bytes, IoError, Output, done, failed, write_all_vectored}
use metrique.Emf.Output as Output
use metrique.Emf.Buf.{is_empty, push_raw_str}
use metrique.Emf.Entry.{Dimensions, ValidationError, EntryWriter}
use metrique.Emf.Entry.Calls as Calls
use metrique.Emf.Line.Order.{arrange}
use metrique.Emf.Line.{
  Encoder, MetricsForDimensionSet, State, push_log_group_and_timestamp, end_set, end_plain,
}

-- How `finish` ends: with an `IoStreamError` of either kind, or it panics.
pub data Finished : Type 0 where
  finished : Finished
  invalid : List ValidationError → Finished
  io : IoError → Finished
  panicked : Finished

abbrev pub unwrap_or {ℓ} : {A : Type ℓ} → A → Option A → A
unwrap_or a none = a
unwrap_or a (some b) = b

module _ (encoder : Encoder) (output : Output) where
  -- None when the fuel of `write_all_vectored` runs out.
  abbrev pub Result : Type 0
  Result = Option (Finished × output.State)

  -- A call of `write_all_vectored` with `?` behind it.
  unfoldable pub write_line : ℕ → List Bytes → (output.State → Result) → output.State → Result
  write_line fuel bufs next out = elim (write_all_vectored output fuel bufs out) [
    | none ↦ none
    | some (done, out') ↦ next out'
    | some (failed e, out') ↦ some (io e, out')
    | some (Output.panicked, out') ↦ some (panicked, out')
  ]

  -- The loop over the dimension sets, with whether any line has been written.
  unfoldable pub write_sets :
      ℕ
      → State
      → ℕ
      → Bool
      → List (Dimensions × MetricsForDimensionSet)
      → (Bool → output.State → Result)
      → output.State
      → Result
  unfolding write_line
  write_sets fuel s unix emitted [] next out = next emitted out
  write_sets fuel s unix emitted ((key, entry) ∷ sets) next out =
      elim (end_set encoder s unix entry) [
        | none ↦ some (panicked, out)
        | some ended ↦ elim (is_empty ended.fields_buf) [
          | true ↦ write_sets fuel s unix emitted sets next out
          | false ↦
              write_line fuel
                (ended.metrics_buf.buf ∷ ended.fields_buf.buf ∷ s.string_fields_buf.buf ∷ [])
                (write_sets fuel s unix true sets next) out
        ]
      ]

  unfoldable pub write_plain : ℕ → State → List Bytes → output.State → Result
  unfolding write_line
  write_plain fuel s dimensions out = elim (end_plain encoder s dimensions) [
    | none ↦ some (panicked, out)
    | some (dimensions_buf, metrics_buf) ↦
        write_line fuel
          (dimensions_buf.buf ∷ metrics_buf.buf ∷ s.decl_buf.buf ∷ s.fields_buf.buf
            ∷ s.string_fields_buf.buf ∷ [])
          (λ out'. some (finished, out')) out
  ]

  -- `order` is that in which `values_mut` walks the map, and `unix` the timestamp in milliseconds since the epoch, 0 before it, or that of the clock. The
  -- changed buffers are not returned: each is cleared before it is read again.
  unfoldable pub finish :
      ℕ → List ℕ → EntryWriter → State → Option (List Bytes) → ℕ → output.State → Result
  unfolding push_log_group_and_timestamp write_sets write_plain
  finish fuel order w state entry_dimensions now out = elim (Calls.finish w) [
    | some errors ↦ some (invalid errors, out)
    | none ↦
        let unix = unwrap_or now w.timestamp in
        let s = record state {
          decl_buf =
              push_log_group_and_timestamp encoder state.log_group_and_timestamp unix
                state.decl_buf;
          string_fields_buf = push_raw_str (codes "}\n") state.string_fields_buf;
        } in
        write_sets fuel s unix false (arrange order s.dimension_set_map)
          (λ emitted out'.
            if not emitted || not (is_empty s.fields_buf)
            then write_plain fuel s (unwrap_or s.each_dimensions_str entry_dimensions) out'
            else some (finished, out'))
          out
  ]
