-- ===== src/Stream.antt =====
-- The combinators of metrique-writer/src/stream.rs that pass entries on as they are: `Tee` and
-- `NullEntryIoStream`.
pub mod Both
mod Tests
use metrique.Prelude.{Bool, true, ◌&&◌, Option, none, some}
use metrique.Background.Receiver.{IoStreamError, Item, EntryIoStream}

-- `Result::and`, both sides being evaluated before it.
abbrev pub and : Option IoStreamError → Option IoStreamError → Option IoStreamError
and none r = r
and (some e) r = some e

module _ {E : Type 0} where
  abbrev pub tee : EntryIoStream E → EntryIoStream E → EntryIoStream E
  tee s1 s2 = record {
    Stream = s1.Stream × s2.Stream;
    next = λ (a, b) entry.
        let (r1, a') = s1.next a entry in let (r2, b') = s2.next b entry in (and r1 r2, (a', b'));
    flush =
        λ (a, b). let (r1, a') = s1.flush a in let (r2, b') = s2.flush b in (r1 && r2, (a', b'));
  }

  abbrev pub null_entry_io_stream : EntryIoStream E
  null_entry_io_stream = record {
    Stream = Unit {0};
    next = λ s entry. (none, s);
    flush = λ s. (true, s);
  }
