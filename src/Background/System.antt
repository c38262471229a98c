-- ===== src/Background/System.antt =====
-- The queue, the tracker and the thread of metrique-writer/src/sink/background.rs together, as a
-- machine: one action is one step of the thread (`run`, `drain_until_deadline` and `shut_down`,
-- cut where other threads can act) or one call by another thread.
-- `parker` is left out: parking ends at any time, as the next step of the thread.
pub mod Thread
pub mod Calls
pub mod Inv
pub mod Handle
pub mod Appending
pub mod Steps
pub mod Streamed
pub mod Flushed
pub mod Shutdown
use metrique.Prelude.{
  ℕ, ◌+◌, ◌-◌, ◌%◌, Bool, true, false, ◌&&◌, Option, none, some, List, [], ◌∷◌, ◌++◌, ◌==◌, min,
  length, if◌then◌else◌, u64,
}
use metrique.ArrayQueue.{ArrayQueue}
use metrique.Background.Waker.{
  DrainResult, drained, hit_deadline, WakerTracker, next_loop_action, LoopAction,
  handle_waiting_wakers, will_progress_on_drained_queue,
}
use metrique.Background.Waker
use metrique.Background.Receiver.{
  EntryIoStream, Receiver, Moment, BackgroundQueueEvent, queue_overflow, flush_complete, consume,
  flush_stream,
}

-- A flush request, with the number of entries appended before it: `sent_at` is no part of the
-- program, and nothing depends on it.
pub record FlushSignal : Type 0 where
  pub sent_at : ℕ

-- Where the thread stands: in `drain_until_deadline` with its count, before the calls of
-- `handle_waiting_wakers`, `next_loop_action` and `deadline_reached`, before the flush at the end
-- of the inner loop, before the tests that end `run`, in the drain and before the flush of
-- `shut_down`, or past its end.
pub data Pc : Type 0 where
  draining : ℕ → Pc
  handling : DrainResult → ℕ → Pc
  choosing : DrainResult → Pc
  checking : Pc
  flushing : Pc
  ending : Pc
  shut_draining : ℕ → Pc
  shut_flushing : DrainResult → Pc
  finished : Pc

-- How an entry left the queue.
pub data Left (E : Type 0) : Type 0 where
  written : E → Left E
  evicted : E → Left E

abbrev pub entry_of : {E : Type 0} → Left E → E
entry_of (written e) = e
entry_of (evicted e) = e

module _ {E : Type 0} (array_queue : ArrayQueue E) (io_stream : EntryIoStream E) where
  open array_queue use {Queue, force_push, pop, len, capacity}
  open io_stream use {Stream}

  -- The fields below `pc` record what happened, and nothing depends on them: the entries appended,
  -- those that left the queue, how many had left at the last flush of the stream, the requests
  -- woken by `handle_waiting_wakers`, and those woken because the thread has ended.
  pub record System : Type 0 where
    pub queue : Queue
    pub tracker : WakerTracker FlushSignal
    pub receiver : Receiver Stream
    pub shutdown_signal : Bool
    pub handles : ℕ
    pub pc : Pc
    pub pushed : List E
    pub left : List (Left E)
    pub flushed : ℕ
    pub woken : List FlushSignal
    pub abandoned : List FlushSignal

  -- `BackgroundQueueBuilder::do_build`, at a capacity that `capacity()` admits.
  unfoldable pub do_build : ℕ → Stream → System
  do_build n stream = record {
    queue = array_queue.new n;
    tracker = Waker.new [];
    receiver = record {
      metrics_emitted = 0;
      metric_validation_errors = 0;
      metric_io_errors = 0;
      stream = stream;
      events = [];
    };
    shutdown_signal = false;
    handles = 1;
    pc = draining 0;
    pushed = [];
    left = [];
    flushed = 0;
    woken = [];
    abandoned = [];
  }
