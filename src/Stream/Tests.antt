-- ===== src/Stream/Tests.antt =====
-- A tee of a stream that fails at times and of one that drops everything.
use metrique.Prelude.{ltb, length, zero, suc, ℕ, ◌≡◌, refl, true, false, none, some, List, [], ◌∷◌}
use metrique.Background.Receiver.{validation, io, Item, EntryIoStream}
use metrique.Stream.{tee, null_entry_io_stream}
use metrique.Stream.Both.{Request, write, flush_all, wrote, flushed, respond}

-- The entries written, with an error for each 0, and for a flush of nothing.
abbrev recording : EntryIoStream ℕ
recording = record {
  Stream = List ℕ;
  next = λ s item. elim item [
    | Item.entry zero ↦ (some io, s)
    | Item.entry (suc n) ↦ (none, suc n ∷ s)
    | Item.error_report ↦ (some validation, s)
  ];
  flush = λ s. (ltb 0 (length s), s);
}

abbrev requests : List (Request ℕ)
requests =
    flush_all ∷ write (Item.entry 3) ∷ write (Item.entry 0) ∷ write (Item.entry 4) ∷ flush_all ∷ []

tee_responds : respond (tee recording null_entry_io_stream) ([], tt) requests ≡ (
  flushed false ∷ wrote none ∷ wrote (some io) ∷ wrote none ∷ flushed true ∷ [],
  (4 ∷ 3 ∷ [], tt),
)
tee_responds = refl
