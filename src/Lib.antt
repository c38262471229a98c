-- ===== src/Lib.antt =====
-- Verification of metrique: wide-event metrics in Rust, their queues, sinks and values.
--
-- An entry is appended to a sink. The usual sink is the background queue: threads push entries into
-- a bounded queue, one thread drains it into a stream, and a flush request is a signal that the
-- thread drops once everything appended before it has been dealt with. A pending sink buffers entries
-- until it learns which sink to forward them to. An aggregation worker merges the entries of each key
-- and emits the aggregates at each flush. An entry is emitted when its parent and the guards on it are
-- dropped. Values can be quantized to a number of significant bits before they are formatted. The EMF
-- format checks an entry and writes it as lines of JSON to a writer.
--
-- Files and what they model (paths from the repository's root):
--   Prelude, Prelude/*       names from the libraries, Boolean tests, lists
--   ArrayQueue               what the sinks rely on of a bounded queue. crossbeam_queue is no part of
--                            the repository, so the queue is a parameter, an interface with laws;
--                            ArrayQueue/Shuttle is the stand-in of
--                            metrique-writer-core/src/shuttle_test_support.rs, which keeps the laws
--   Background/Waker         WakerTracker and next_loop_action of
--                            metrique-writer/src/sink/background.rs
--   Background/Waker/Order   a sequence of calls of handle_waiting_wakers
--   Background/Waker/Liveness, Background/Waker/Bound   how many calls a flush request waits
--   Background/Receiver      consume, report_validation_error and flush_stream; the stream is any
--                            EntryIoStream, a parameter
--   Background/Receiver/Counts   what the observer is told, against a tally of the stream's results
--   Background/Receiver/Recorded a stream that records what it is given and when it is flushed
--   Background/System        the state of queue, tracker and thread, and do_build
--   Background/System/Thread the steps of run, drain_until_deadline and shut_down
--   Background/System/Calls  push, flush_async, the handles, and sequences of actions
--   Background/System/Inv, Background/System/Handle, Background/System/Appending, Background/System/Steps
--                            the invariant
--   Background/System/Streamed   that the stream is given what the queue counts as written
--   Background/System/Flushed, Background/System/Shutdown   safety, and the end of the thread
--   KeepAlive                Parent, Guard and DropAll of metrique/src/keep_alive.rs, their drops cut
--                            into atomic steps
--   KeepAlive/Inv, KeepAlive/Steps, KeepAlive/Release   the invariant, and when the value is dropped
--   Aggregation              KeyedAggregator of metrique-aggregation/src/aggregator.rs; the strategy
--                            and the order in which hashbrown's map drains are parameters
--   Aggregation/Lookup       the aggregator against a fold for each key
--   Aggregation/Worker       metrique-aggregation/src/sink/worker.rs
--   Aggregation/Inv, Aggregation/Rounds, Aggregation/Steps, Aggregation/Delivery   the worker's
--                            invariant and what it emits
--   JsonEncode, JsonEncode/Escape   push_json_string of metrique-writer-core/src/json_encode.rs, over
--                            bytes, into a writer that does not fail; JsonEncode/Read: a reader that undoes it
--   PendingSink              append and resolve of metrique-util/src/pending_sink.rs, cut into their
--                            atomic steps
--   PendingSink/Inv, PendingSink/Steps, PendingSink/Delivery   the invariant, and what is delivered
--   Slot                     Slot, LazySlot and SlotGuard of metrique/src/slot.rs; tokio's oneshot channel
--                            is a parameter
--   Slot/Account, Slot/Refine, Slot/Delivery   what a slot promises, that it keeps it, and when it panics
--   Stream, Stream/Both      Tee of metrique-writer/src/stream.rs over a run of writes and flushes
--   Timers                   Timer, Stopwatch and the guards of metrique/src/timers.rs
--   Timers/Tally             what a stopwatch promises; Timers/Guards, Timers/Refine: that it keeps it
--   Timers/Stop              a timer that is stopped
--   Histogram                SortAndMerge of metrique-aggregation/src/histogram.rs; f64 is a parameter
--   Histogram/Sort, Histogram/Runs, Histogram/Drain   the sort, the loop and the whole of drain
--   CaseConvert              metrique-core/src/case_convert.rs; the tables of Unicode are a parameter
--   CaseConvert/Words, CaseConvert/Delimited, CaseConvert/Prefix   the delimited styles
--   Emf/Output, Emf/Buf      metrique-writer-format-emf/src/buf.rs: the vectored output, over a writer
--                            that is a parameter, and the buffers
--   Emf/Vectored             what is written, through short writes, interruptions and errors
--   Emf/Metric               how metrique-writer-format-emf/src/emf.rs writes a metric; the crates itoa,
--                            dtoa and serde_json, and f64, are parameters
--   Emf/Values, Emf/Listed, Emf/Fields   the loop over the observations, a value, a whole metric
--   Emf/Array, Emf/Elements  how it writes an array of values
--   Emf/Entry, Emf/Entry/Calls   the validations of its EntryWriter, the calls of an entry one after the
--                            other, and the settings of EmfBuilder, apart from the buffers
--   Emf/Entry/Names, Emf/Entry/Sought, Emf/Entry/Missing   the dimensions that an entry has to write
--   Emf/Entry/Counts, Emf/Entry/Measured, Emf/Entry/Unique   the names that it may not write twice
--   Emf/Line                 the State with the buffers of emf.rs, EmfBuilder::build, what
--                            format_with_multiplicity clears and what finish adds to the buffers
--   Emf/Line/Order           the orders in which the hash map of the dimension sets may be walked
--   Emf/Line/Finish          finish, with the writer of the caller
--   Emf/Line/Text, Emf/Line/Ended, Emf/Line/Contents, Emf/Line/Lines   the text of a line, and the State
--                            by what has been pushed into its buffers
--   Emf/Line/Rounds, Emf/Line/Written, Emf/Line/Formats   what finish writes
--   Emf/Put                  what ValueWriter of emf.rs pushes into the State
--   Emf/Put/Grown, Emf/Put/Filled   the State after the values of an entry
--   Emf/Put/Format           format_with_multiplicity, and what it writes
--   Congress                 metrique-writer/src/sample/congress.rs: the sampler, with f32 as a parameter
--   Congress/Rates, Congress/Kept   what it counts, and when it drops nothing
--   Quantize                 SignificantBits, Rounding and quantize_u64 of
--                            metrique-writer-core/src/quantize.rs
--   Quantize/Width, Quantize/Bucket, Quantize/Bounds, Quantize/Order, Quantize/Idempotent   its laws
--   Quantize/Float           quantize_f64, a double being its 64 bits
--   Quantize/Float/Value     the number that they stand for and its exact rounding
--   Quantize/Float/Rounds, Quantize/Float/Close, Quantize/Float/Bounds   its laws
--
-- Conventions. A method that changes its object returns the new record. Words are natural numbers
-- with their wrap-around written out (u64), their ranges hypotheses. Signals carry the number of
-- entries appended before them, and the system records what left the queue: these fields are read by
-- no step, and a stream that records its calls says what it was given and when it was flushed. An action of another thread happens between two steps of the background thread; the steps
-- are cut where the thread reads shared state. handle_waiting_wakers is one step: its flush and its
-- reads of the channel commute with pushes and with later sends. Parking ends at any time.
-- The atomic steps of the pending sink and of the keep-alive guards interleave; weaker memory
-- orderings are not modelled. What the clock, the rate limiter and the tracing subscriber answer is a
-- parameter of each step. The loops of the threads are sequences of steps, bit_width recurs on the
-- word's bits, and push_json_string on the bytes of its string. Only write_all_vectored has fuel: each
-- round writes a byte, ends the loop or is an interruption, so the bytes and the interruptions that
-- the writer has left are enough; finish gives its fuel to each such call.
--
-- Not modelled: thread spawning and joining, log output, names and intervals of the builder, the
-- texts of errors; of the EMF format how a sample rate becomes a multiplicity, and in the buffers the
-- place of a config call among the calls of an entry: the dimensions it configures are an argument of
-- format_with_multiplicity, as is the EntryWriter with the errors; the macros, the other formats and
-- the bridges to other metric systems.
pub mod Prelude
pub mod ArrayQueue
pub mod Aggregation
pub mod Background
pub mod JsonEncode
pub mod KeepAlive
pub mod PendingSink
pub mod Quantize
pub mod CaseConvert
pub mod Congress
pub mod Emf
pub mod Histogram
pub mod Slot
pub mod Stream
pub mod Timers
