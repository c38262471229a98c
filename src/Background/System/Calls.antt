-- ===== src/Background/System/Calls.antt =====
-- What other threads do to the queue, and the whole as a sequence of actions.
use metrique.Prelude.{
  ◌+◌, ◌-◌, Bool, true, false, Option, none, some, List, [], ◌∷◌, ◌++◌, ◌==◌, length, if◌then◌else◌,
}
use metrique.ArrayQueue.{ArrayQueue}
use metrique.Background.Receiver.{EntryIoStream, Moment, queue_overflow}
use metrique.Background.System.{FlushSignal, Pc, finished, evicted, System}
use metrique.Background.System.Thread.{thread_step}

-- What can happen next. Only who holds a `BackgroundQueue` appends, flushes, clones or drops it.
pub data Action (E : Type 0) : Type 0 where
  step : Moment → Action E
  push : E → Action E
  request_flush : Action E
  shut_down : Action E
  clone_queue : Action E
  drop_queue : Action E

abbrev pub is_finished : Pc → Bool
is_finished finished = true
is_finished _ = false

module _ {E : Type 0} (array_queue : ArrayQueue E) (io_stream : EntryIoStream E)
    (observed : Bool) where
  open array_queue use {Queue, force_push}

  abbrev St : Type 0
  St = System array_queue io_stream

  appended : E → Option E → Queue → St → St
  appended e none queue' s = record s { queue = queue'; pushed = s.pushed ++ e ∷ [] }
  appended e (some old) queue' s =
      let r = s.receiver in
      record s {
        queue = queue';
        pushed = s.pushed ++ e ∷ [];
        left = s.left ++ evicted old ∷ [];
        receiver = if observed then record r { events = r.events ++ queue_overflow ∷ [] } else r;
      }

  -- `Inner::push`.
  unfoldable pub append : E → St → St
  unfolding appended
  append e s = let (old, queue') = force_push s.queue e in appended e old queue' s

  -- `Inner::flush_async`: once the thread has ended, the send fails and drops the signal.
  unfoldable pub flush_async : St → St
  flush_async s =
      let signal : FlushSignal = record { sent_at = length s.pushed } in
      let t = s.tracker in
      if is_finished s.pc then record s { abandoned = s.abandoned ++ signal ∷ [] } else record s {
        tracker = record t { flush_queue_receiver = t.flush_queue_receiver ++ signal ∷ [] };
      }

  -- `BackgroundQueueJoinHandle::drop`, before it joins the thread.
  unfoldable pub request_shutdown : St → St
  request_shutdown s = record s { shutdown_signal = true }

  unfoldable pub act : Action E → St → St
  unfolding thread_step append flush_async request_shutdown
  act (step m) s = thread_step array_queue io_stream observed m s
  act (push e) s = if s.handles == 0 then s else append e s
  act request_flush s = if s.handles == 0 then s else flush_async s
  act shut_down s = request_shutdown s
  act clone_queue s = if s.handles == 0 then s else record s { handles = s.handles + 1 }
  act drop_queue s = record s { handles = s.handles - 1 }

  unfoldable pub run : List (Action E) → St → St
  run [] s = s
  run (a ∷ as') s = run as' (act a s)
