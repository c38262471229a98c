-- ===== src/Background/Receiver/Recorded.antt =====
-- A stream that records the entries that it is given and when it is flushed, to say what `consume`
-- and `flush_stream` of metrique-writer/src/sink/background.rs do to the stream.
use metrique.Prelude.{ℕ, ◌≡◌, Bool, List, [], ◌∷◌, ◌++◌, length, arith}
use metrique.Background.Receiver.{
  Item, entry, error_report, EntryIoStream, Receiver, Moment, consume, flush_stream,
}

-- `flushed_at` is how many entries had been given at the last flush.
pub record Recording (S E : Type 0) : Type 0 where
  pub stream : S
  pub given : List E
  pub flushed_at : ℕ

module _ {E : Type 0} (io_stream : EntryIoStream E) where
  open io_stream use {Stream, next, flush}

  abbrev pub given_with : List E → Item E → List E
  given_with es (entry e) = es ++ e ∷ []
  given_with es error_report = es

  -- It passes every call on.
  abbrev pub recorded : EntryIoStream E
  recorded = record {
    Stream = Recording Stream E;
    next = λ t i.
        let (result, s) = next t.stream i in
        (result, record t { stream = s; given = given_with t.given i });
    flush = λ t.
        let (ok, s) = flush t.stream in (ok, record t { stream = s; flushed_at = length t.given });
  }

  abbrev pub fresh : Stream → Recording Stream E
  fresh s = record { stream = s; given = []; flushed_at = 0 }

  -- An entry that is consumed is given to the stream once, and a flush is passed on.
  pub consume-given :
      (m : Moment) (e : E) (r : Receiver (Recording Stream E))
      → ((consume recorded m e r).stream.given ≡ r.stream.given ++ e ∷ [])
        × ((consume recorded m e r).stream.flushed_at ≡ r.stream.flushed_at)
  unfolding consume
  consume-given m e r = ground arith

  pub flush_stream-given :
      (observed : Bool) (r : Receiver (Recording Stream E))
      → ((flush_stream recorded observed r).stream.given ≡ r.stream.given)
        × ((flush_stream recorded observed r).stream.flushed_at ≡ length r.stream.given)
  unfolding flush_stream
  flush_stream-given observed r = ground arith
