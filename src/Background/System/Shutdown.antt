-- ===== src/Background/System/Shutdown.antt =====
-- `shut_down` of metrique-writer/src/sink/background.rs, left to itself, writes all that is queued.
use metrique.Prelude.{
  ℕ, ◌+◌, ◌≤◌, ◌≡◌, sym, ap, ◌∙◌, Bool, true, false, List, [], ◌∷◌, ◌++◌, append-nil, append_assoc,
  length, u64, All, arith,
}
use metrique.ArrayQueue.{ArrayQueue}
use metrique.Background.Waker
use metrique.Background.Waker.{drained}
use metrique.Background.Receiver.{EntryIoStream, Moment}
use metrique.Background.Receiver.Recorded.{recorded, consume-given, flush_stream-given}
use metrique.Background.System.{System, ending, shut_draining, shut_flushing, finished}
use metrique.Background.System.Thread.{thread_step}

-- The deadline of the shutdown has not passed.
abbrev pub IsCalm : Moment → Type 0
IsCalm m = m.past_deadline ≡ false

module _ {E : Type 0} (array_queue : ArrayQueue E) (io_stream : EntryIoStream E)
    (observed : Bool) where
  open array_queue use {contents, popped-pop, contents-pop}

  abbrev St : Type 0
  St = System array_queue (recorded io_stream)

  -- The thread alone.
  unfoldable pub thread_steps : List Moment → St → St
  thread_steps [] s = s
  thread_steps (m ∷ ms) s =
      thread_steps ms (thread_step array_queue (recorded io_stream) observed m s)

  ending_step :
      (m : Moment) (s : St)
      → s.pc ≡ ending
      → s.shutdown_signal ≡ true
      → let s' = thread_step array_queue (recorded io_stream) observed m s in
        (s'.pc ≡ shut_draining 0) × (s'.queue ≡ s.queue) × (s'.receiver ≡ s.receiver)
  unfolding thread_step
  ending_step m s at_pc signal = ground arith

  draining_step :
      (m : Moment) (s : St) (count : ℕ) (x : E) (xs : List E)
      → IsCalm m
      → s.pc ≡ shut_draining count
      → contents s.queue ≡ x ∷ xs
      → let s' = thread_step array_queue (recorded io_stream) observed m s in
        (s'.pc ≡ shut_draining (u64 (count + 1)))
        × (contents s'.queue ≡ xs)
        × (s'.receiver.stream.given ≡ s.receiver.stream.given ++ x ∷ [])
  unfolding thread_step
  draining_step m s count x xs calm at_pc has =
      ground
        (arith, popped-pop s.queue, contents-pop s.queue, consume-given io_stream m x s.receiver)

  drained_step :
      (m : Moment) (s : St) (count : ℕ)
      → s.pc ≡ shut_draining count
      → contents s.queue ≡ []
      → let s' = thread_step array_queue (recorded io_stream) observed m s in
        (s'.pc ≡ shut_flushing drained) × (contents s'.queue ≡ []) × (s'.receiver ≡ s.receiver)
  unfolding thread_step
  drained_step m s count at_pc has = ground (arith, popped-pop s.queue, contents-pop s.queue)

  finish_step :
      (m : Moment) (s : St)
      → s.pc ≡ shut_flushing drained
      → let s' = thread_step array_queue (recorded io_stream) observed m s in
        (s'.pc ≡ finished)
        × (s'.queue ≡ s.queue)
        × (s'.receiver.stream.given ≡ s.receiver.stream.given)
        × (s'.receiver.stream.flushed_at ≡ length s.receiver.stream.given)
        × (s'.tracker.waiting_wakers ≡ [])
        × (s'.tracker.flush_queue_receiver ≡ [])
  unfolding thread_step Waker.new
  finish_step m s at_pc = ground (arith, flush_stream-given io_stream observed s.receiver)

  finished_step :
      (m : Moment) (s : St)
      → s.pc ≡ finished
      → thread_step array_queue (recorded io_stream) observed m s ≡ s
  unfolding thread_step
  finished_step m s at_pc = ground arith

  -- What the thread has done when it has ended, started with `before` given to the stream and the
  -- entries `xs` queued.
  pub record Ended (before : List E) (xs : List E) (s : St) : Type 0 where
    pub at_end : s.pc ≡ finished
    pub empty : contents s.queue ≡ []
    pub all_written : s.receiver.stream.given ≡ before ++ xs
    pub flushed : s.receiver.stream.flushed_at ≡ length s.receiver.stream.given
    pub no_waiting : s.tracker.waiting_wakers ≡ []
    pub none_sent : s.tracker.flush_queue_receiver ≡ []

  thread_steps-Ended :
      (ms : List Moment) (before : List E) (xs : List E) (s : St)
      → Ended before xs s
      → Ended before xs (thread_steps ms s)
  unfolding thread_steps
  thread_steps-Ended [] before xs s e = e
  thread_steps-Ended (m ∷ ms) before xs s e =
      thread_steps-Ended ms before xs _ (rw (finished_step m s e.at_end) e)

  drains :
      (xs : List E) (ms : List Moment) (s : St) (count : ℕ)
      → All IsCalm ms
      → length xs + 2 ≤ length ms
      → s.pc ≡ shut_draining count
      → contents s.queue ≡ xs
      → Ended s.receiver.stream.given xs (thread_steps ms s)
  unfolding thread_steps
  drains xs [] s count calm enough at_pc has = absurd (omega arith)
  drains xs (m ∷ []) s count calm enough at_pc has = absurd (omega arith)
  drains [] (m ∷ m' ∷ ms) s count calm enough at_pc has =
      let t = thread_step array_queue (recorded io_stream) observed m s in
      let (at_t, empty, kept) = drained_step m s count at_pc has in
      let (at_u, same, kept', flushed, waiting, sent) = finish_step m' t at_t in
      thread_steps-Ended ms s.receiver.stream.given [] _ (record {
        at_end = at_u;
        empty = ap contents same ∙ empty;
        all_written =
            kept' ∙ ap (λ r. r.stream.given) kept ∙ sym (append-nil s.receiver.stream.given);
        flushed = flushed ∙ ap length (sym kept');
        no_waiting = waiting;
        none_sent = sent;
      })
  drains (x ∷ xs) (m ∷ m' ∷ ms) s count calm enough at_pc has =
      let t = thread_step array_queue (recorded io_stream) observed m s in
      let (at_t, rest, more) = draining_step m s count x xs calm.0 at_pc has in
      let e = drains xs (m' ∷ ms) t _ calm.1 (omega arith) at_t rest in
      record {
        at_end = e.at_end;
        empty = e.empty;
        all_written =
            e.all_written
            ∙ ap (λ es. es ++ xs) more
            ∙ append_assoc s.receiver.stream.given (x ∷ []) xs;
        flushed = e.flushed;
        no_waiting = e.no_waiting;
        none_sent = e.none_sent;
      }

  -- Once shutdown is requested and the thread stands at the end of its loop, it ends within three
  -- steps and one for each queued entry, if no other thread acts and the shutdown's deadline does
  -- not pass: the stream has then been given every queued entry, in order and once, and was flushed
  -- after the last one, and no flush request is left waiting.
  pub shut_down_drains :
      (ms : List Moment) (s : St)
      → All IsCalm ms
      → length (contents s.queue) + 3 ≤ length ms
      → s.pc ≡ ending
      → s.shutdown_signal ≡ true
      → Ended s.receiver.stream.given (contents s.queue) (thread_steps ms s)
  unfolding thread_steps
  shut_down_drains [] s calm enough at_pc signal = absurd (omega arith)
  shut_down_drains (m ∷ ms) s calm enough at_pc signal =
      let t = thread_step array_queue (recorded io_stream) observed m s in
      let (at_t, same, kept) = ending_step m s at_pc signal in
      let e = drains (contents s.queue) ms t 0 calm.1 (omega arith) at_t (ap contents same) in
      record {
        at_end = e.at_end;
        empty = e.empty;
        all_written = e.all_written ∙ ap (λ r. r.stream.given ++ contents s.queue) kept;
        flushed = e.flushed;
        no_waiting = e.no_waiting;
        none_sent = e.none_sent;
      }
