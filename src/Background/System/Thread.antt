-- ===== src/Background/System/Thread.antt =====
-- The background thread: the steps of `run`, `drain_until_deadline` and `shut_down`.
use metrique.Prelude.{
  ℕ, ◌+◌, ◌-◌, ◌%◌, ◌^◌, Bool, ◌&&◌, ◌||◌, Option, none, some, List, [], ◌∷◌, ◌++◌, ◌==◌, min,
  length, if◌then◌else◌, u64,
}
use metrique.ArrayQueue.{ArrayQueue}
use metrique.Background.Waker
use metrique.Background.Waker.{
  DrainResult, drained, hit_deadline, next_loop_action, LoopAction, handle_waiting_wakers,
  will_progress_on_drained_queue,
}
use metrique.Background.Receiver.{
  EntryIoStream, Receiver, Moment, BackgroundQueueEvent, flush_complete, consume, flush_stream,
}
use metrique.Background.System.{
  Pc, draining, handling, choosing, checking, flushing, ending, shut_draining, shut_flushing,
  finished, written, System,
}

module _ {E : Type 0} (array_queue : ArrayQueue E) (io_stream : EntryIoStream E) where
  open array_queue use {Queue, pop, len, capacity}
  open io_stream use {Stream}

  abbrev St : Type 0
  St = System array_queue io_stream

  -- One round of the loop of `drain_until_deadline`: `more` and `done` are where it goes on.
  drained_one : Moment → (ℕ → Pc) → (DrainResult → ℕ → Pc) → ℕ → Option E → Queue → St → St
  drained_one m more done count none queue' s = record s { queue = queue'; pc = done drained count }
  drained_one m more done count (some e) queue' s =
      let count' = u64 (count + 1) in
      record s {
        queue = queue';
        receiver = consume io_stream m e s.receiver;
        left = s.left ++ written e ∷ [];
        pc = if count' % 32 == 0 && m.past_deadline then done hit_deadline count' else more count';
      }

  unfoldable pub drain_until_deadline : Moment → (ℕ → Pc) → (DrainResult → ℕ → Pc) → ℕ → St → St
  unfolding drained_one
  drain_until_deadline m more done count s =
      let (popped, queue') = pop s.queue in drained_one m more done count popped queue' s

  module _ (observed : Bool) where
    -- `flush_stream`, noting how many entries had left the queue.
    unfoldable pub flush_receiver : ℕ → Receiver Stream × ℕ → Receiver Stream × ℕ
    flush_receiver gone (r, n) = (flush_stream io_stream observed r, gone)

    unfoldable pub handle : DrainResult → ℕ → St → St
    unfolding handle_waiting_wakers flush_receiver
    handle status count s =
        let (tracker', woken', (receiver', flushed')) =
          handle_waiting_wakers (capacity s.queue) (flush_receiver (length s.left)) status count
            s.tracker (s.receiver, s.flushed) in
        record s {
          tracker = tracker';
          receiver = receiver';
          flushed = flushed';
          woken = s.woken ++ woken';
          pc = choosing status;
        }

    unfoldable pub act_on : LoopAction → St → St
    act_on LoopAction.flush s = record s { pc = flushing }
    act_on LoopAction.continue s = record s { pc = checking }
    act_on LoopAction.park s = record s { pc = checking }

    complete_event : Moment → ℕ → List BackgroundQueueEvent
    complete_event m queue_len =
        if observed then flush_complete m.idle_percent (min queue_len (2 ^ 32 - 1)) ∷ [] else []

    unfoldable pub flush_cycle : Moment → St → St
    unfolding complete_event
    flush_cycle m s =
        let r = flush_stream io_stream observed s.receiver in
        record s {
          receiver = record r { events = r.events ++ complete_event m (len s.queue) };
          flushed = length s.left;
          pc = ending;
        }

    -- `shut_down` after its drain, and the return from `run`: the tracker and the receiving end of
    -- the channel are dropped with all their signals.
    unfoldable pub finish : St → St
    finish s = record s {
      receiver = flush_stream io_stream observed s.receiver;
      flushed = length s.left;
      abandoned = s.abandoned ++ (s.tracker.waiting_wakers ++ s.tracker.flush_queue_receiver);
      tracker = Waker.new [];
      pc = finished;
    }

    unfoldable pub dispatch : Moment → Pc → St → St
    unfolding drain_until_deadline handle act_on flush_cycle finish
    dispatch m (draining count) s = drain_until_deadline m draining handling count s
    dispatch m (handling status count) s = handle status count s
    dispatch m (choosing status) s =
        act_on
          (next_loop_action status s.shutdown_signal (will_progress_on_drained_queue s.tracker)) s
    dispatch m checking s = record s { pc = if m.past_deadline then flushing else draining 0 }
    dispatch m flushing s = flush_cycle m s
    dispatch m ending s = record s {
      pc = if s.shutdown_signal || s.handles == 0 then shut_draining 0 else draining 0;
    }
    dispatch m (shut_draining count) s =
        drain_until_deadline m shut_draining (λ status _. shut_flushing status) count s
    dispatch m (shut_flushing status) s = finish s
    dispatch m finished s = s

    -- One step of the background thread.
    unfoldable pub thread_step : Moment → St → St
    unfolding dispatch
    thread_step m s = dispatch m s.pc s
