-- ===== src/Background/Receiver.antt =====
-- The methods of `Receiver` of metrique-writer/src/sink/background.rs that write to the stream, and
-- the events of metrique-writer/src/sink/observer.rs that they send.
pub mod Counts
pub mod Recorded
use metrique.Prelude.{
  ℕ, ◌+◌, Bool, true, false, Option, none, some, List, [], ◌∷◌, ◌++◌, if◌then◌else◌, u64,
}

-- `IoStreamError` (metrique-writer-core/src/stream.rs), its payload left out: it is only logged.
pub data IoStreamError : Type 0 where
  validation : IoStreamError
  io : IoStreamError

-- What is written to a stream: a user's entry, or the report of a validation error.
pub data Item (E : Type 0) : Type 0 where
  entry : E → Item E
  error_report : Item E

-- The trait `EntryIoStream`: any destination, with any state. `none` is `Ok(())`; a failed flush
-- returns false.
pub record EntryIoStream (E : Type 0) : Type 1 where
  pub Stream : Type 0
  pub next : Stream → Item E → Option IoStreamError × Stream
  pub flush : Stream → Bool × Stream

pub data BackgroundQueueEvent : Type 0 where
  queue_overflow : BackgroundQueueEvent
  metrics_emitted : ℕ → BackgroundQueueEvent
  io_errors : ℕ → BackgroundQueueEvent
  validation_errors : ℕ → BackgroundQueueEvent
  flush_complete : ℕ → ℕ → BackgroundQueueEvent

-- The counters, the stream, and the calls of the observer so far, oldest first.
pub record Receiver (S : Type 0) : Type 0 where
  pub metrics_emitted : ℕ
  pub metric_validation_errors : ℕ
  pub metric_io_errors : ℕ
  pub stream : S
  pub events : List BackgroundQueueEvent

-- What the thread finds out about its surroundings at one moment.
pub record Moment : Type 0 where
  pub past_deadline : Bool
  -- Whether `rate_limited!` lets a call through.
  pub rate_allows : Bool
  -- Whether no tracing subscriber is installed.
  pub no_subscriber : Bool
  -- The share of the cycle that was spent parked.
  pub idle_percent : ℕ

module _ {E : Type 0} (io_stream : EntryIoStream E) where
  open io_stream use {Stream, next, flush}

  -- The outcome of a write, counted. A validation error of the report itself is not counted.
  count_report : Option IoStreamError → Receiver Stream → Receiver Stream
  count_report none r = record r { metrics_emitted = u64 (r.metrics_emitted + 1) }
  count_report (some io) r = record r { metric_io_errors = u64 (r.metric_io_errors + 1) }
  count_report (some validation) r = r

  unfoldable pub report_validation_error : Moment → Receiver Stream → Receiver Stream
  unfolding count_report
  report_validation_error m r =
      let (result, stream') = next r.stream error_report in
      if m.no_subscriber then count_report result (record r { stream = stream' }) else r

  count_entry : Moment → Option IoStreamError → Receiver Stream → Receiver Stream
  unfolding report_validation_error
  count_entry m none r = record r { metrics_emitted = u64 (r.metrics_emitted + 1) }
  count_entry m (some validation) r =
      let counted : Receiver Stream = record r {
        metric_validation_errors = u64 (r.metric_validation_errors + 1);
      } in
      if m.rate_allows then report_validation_error m counted else counted
  count_entry m (some io) r = record r { metric_io_errors = u64 (r.metric_io_errors + 1) }

  unfoldable pub consume : Moment → E → Receiver Stream → Receiver Stream
  unfolding count_entry
  consume m e r =
      let (result, stream') = next r.stream (entry e) in
      count_entry m result (record r { stream = stream' })

  -- `observed` says whether there is an observer.
  unfoldable pub flush_stream : Bool → Receiver Stream → Receiver Stream
  flush_stream observed r =
      let (ok, stream') = flush r.stream in
      let errors = if ok then r.metric_io_errors else u64 (r.metric_io_errors + 1) in
      if observed
      then record {
        metrics_emitted = 0;
        metric_validation_errors = 0;
        metric_io_errors = 0;
        stream = stream';
        events =
            r.events
            ++ (BackgroundQueueEvent.metrics_emitted r.metrics_emitted
                ∷ io_errors errors
                ∷ validation_errors r.metric_validation_errors
                ∷ []);
      }
      else record r { metric_io_errors = errors; stream = stream' }
