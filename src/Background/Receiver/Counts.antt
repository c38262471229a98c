-- ===== src/Background/Receiver/Counts.antt =====
-- The observer is told of every write and of every failure, once.
use metrique.Prelude.{
  ℕ, ◌+◌, ◌≡◌, Bool, Option, none, some, List, [], ◌∷◌, ◌++◌, if◌then◌else◌, u64, arith,
}
use metrique.Background.Receiver.{
  IoStreamError, validation, io, Item, entry, error_report, EntryIoStream, BackgroundQueueEvent,
  metrics_emitted, io_errors, validation_errors, Receiver, Moment, consume, flush_stream,
}

-- The sum of what a list of events says of one count.
abbrev pub told : (BackgroundQueueEvent → ℕ) → List BackgroundQueueEvent → ℕ
told count [] = 0
told count (e ∷ es) = count e + told count es

abbrev pub emitted_in : BackgroundQueueEvent → ℕ
emitted_in (metrics_emitted n) = n
emitted_in _ = 0

abbrev pub io_errors_in : BackgroundQueueEvent → ℕ
io_errors_in (io_errors n) = n
io_errors_in _ = 0

abbrev pub validation_errors_in : BackgroundQueueEvent → ℕ
validation_errors_in (validation_errors n) = n
validation_errors_in _ = 0

told-append :
    (count : BackgroundQueueEvent → ℕ) (es fs : List BackgroundQueueEvent)
    → told count (es ++ fs) ≡ told count es + told count fs
told-append count [] fs = omega arith
told-append count (e ∷ es) fs = omega (arith, told-append count es fs)

-- A stream that keeps count of what becomes of the calls that it passes on.
pub record Tally (S : Type 0) : Type 0 where
  pub stream : S
  pub written : ℕ
  pub rejected : ℕ
  pub failed : ℕ

-- What the thread does with the stream: it writes an entry, or flushes.
pub data Use (E : Type 0) : Type 0 where
  write : Moment → E → Use E
  flush_all : Use E

module _ {E : Type 0} (io_stream : EntryIoStream E) where
  open io_stream use {Stream, next, flush}

  abbrev pub tally_next : Tally Stream → Item E → Option IoStreamError → Stream → Tally Stream
  tally_next t i none s = record t { stream = s; written = t.written + 1 }
  tally_next t i (some io) s = record t { stream = s; failed = t.failed + 1 }
  tally_next t (entry e) (some validation) s = record t { stream = s; rejected = t.rejected + 1 }
  tally_next t error_report (some validation) s = record t { stream = s }

  abbrev pub tallied : EntryIoStream E
  tallied = record {
    Stream = Tally Stream;
    next = λ t i. let (result, s) = next t.stream i in (result, tally_next t i result s);
    flush = λ t.
        let (ok, s) = flush t.stream in
        (ok, record t { stream = s; failed = if ok then t.failed else t.failed + 1 });
  }

  unfoldable pub uses : Bool → List (Use E) → Receiver (Tally Stream) → Receiver (Tally Stream)
  uses observed [] r = r
  uses observed (write m e ∷ us) r = uses observed us (consume tallied m e r)
  uses observed (flush_all ∷ us) r = uses observed us (flush_stream tallied observed r)

  pub record IsCounted (r : Receiver (Tally Stream)) : Type 0 where
    pub written : u64 (told emitted_in r.events + r.metrics_emitted) ≡ u64 r.stream.written
    pub rejected :
        u64 (told validation_errors_in r.events + r.metric_validation_errors)
        ≡ u64 r.stream.rejected
    pub failed : u64 (told io_errors_in r.events + r.metric_io_errors) ≡ u64 r.stream.failed

  consume-IsCounted :
      (m : Moment) (e : E) (r : Receiver (Tally Stream))
      → IsCounted r
      → IsCounted (consume tallied m e r)
  unfolding consume
  consume-IsCounted m e r c = ground arith

  flush_stream-IsCounted :
      (observed : Bool) (r : Receiver (Tally Stream))
      → IsCounted r
      → IsCounted (flush_stream tallied observed r)
  unfolding flush_stream
  flush_stream-IsCounted observed r c =
      let errors =
        if (flush r.stream.stream).0 then r.metric_io_errors else u64 (r.metric_io_errors + 1) in
      let sent =
        metrics_emitted r.metrics_emitted
        ∷ io_errors errors
        ∷ validation_errors r.metric_validation_errors
        ∷ [] in
      ground (
        arith,
        told-append emitted_in r.events sent,
        told-append io_errors_in r.events sent,
        told-append validation_errors_in r.events sent,
      )

  uses-IsCounted :
      (observed : Bool) (us : List (Use E)) (r : Receiver (Tally Stream))
      → IsCounted r
      → IsCounted (uses observed us r)
  unfolding uses
  uses-IsCounted observed [] r c = c
  uses-IsCounted observed (write m e ∷ us) r c =
      uses-IsCounted observed us (consume tallied m e r) (consume-IsCounted m e r c)
  uses-IsCounted observed (flush_all ∷ us) r c =
      uses-IsCounted observed us (flush_stream tallied observed r)
        (flush_stream-IsCounted observed r c)

  abbrev pub start : Stream → Receiver (Tally Stream)
  start s = record {
    metrics_emitted = 0;
    metric_validation_errors = 0;
    metric_io_errors = 0;
    stream = record { stream = s; written = 0; rejected = 0; failed = 0 };
    events = [];
  }

  -- After any sequence of writes and flushes, what the observer was told together with the counters
  -- is, modulo 2 ^ 64, the number of items written, of entries that failed validation, and of
  -- writes and flushes that failed.
  pub uses-start-IsCounted :
      (observed : Bool) (us : List (Use E)) (s : Stream) → IsCounted (uses observed us (start s))
  uses-start-IsCounted observed us s = uses-IsCounted observed us (start s) (omega arith)
