-- ===== src/Background/System/Streamed.antt =====
-- What the stream has been given, and when it was flushed, follow what has left the queue.
use metrique.Prelude.{
  ℕ, ◌≤◌, ◌≡◌, refl, sym, ap, ◌∙◌, Bool, List, [], ◌∷◌, ◌++◌, append-nil, length, length-append,
  take, take-append, take-append_within, Bool-cases, Option-cases, inl, inr, ◌⊎◌, arith, ◌==◌, ◌||◌,
  ◌-◌,
}
use metrique.ArrayQueue.{ArrayQueue}
use metrique.Background.Waker.{
  DrainResult, LoopAction, WakerTracker, is_empty, is_drained, wake_ready, handle_waiting_wakers,
}
use metrique.Background.Receiver.{EntryIoStream, Receiver, Moment, flush_stream}
use metrique.Background.Receiver.Recorded.{
  Recording, recorded, fresh, consume-given, flush_stream-given,
}
use metrique.Background.System.{
  FlushSignal, Pc, draining, handling, choosing, checking, flushing, ending, shut_draining,
  shut_flushing, finished, Left, written, evicted, System, do_build,
}
use metrique.Background.System.Thread.{
  drain_until_deadline, flush_receiver, handle, act_on, flush_cycle, finish, dispatch, thread_step,
}
use metrique.Background.System.Calls.{
  Action, step, push, request_flush, shut_down, clone_queue, drop_queue, append, flush_async,
  request_shutdown, act, run,
}

-- The entries that left the queue by being written.
abbrev pub written_of : {E : Type 0} → List (Left E) → List E
written_of [] = []
written_of (written e ∷ ls) = e ∷ written_of ls
written_of (evicted e ∷ ls) = written_of ls

written_of-append :
    {E : Type 0} (ls ms : List (Left E)) → written_of (ls ++ ms) ≡ written_of ls ++ written_of ms
written_of-append [] ms = refl
written_of-append (written e ∷ ls) ms = ap (λ es. e ∷ es) (written_of-append ls ms)
written_of-append (evicted e ∷ ls) ms = written_of-append ls ms

take_all : {A : Type 0} (xs : List A) → take (length xs) xs ≡ xs
take_all xs = ap (take (length xs)) (sym (append-nil xs)) ∙ take-append xs []

module _ {E : Type 0} (io_stream : EntryIoStream E) where
  open io_stream use {Stream}

  -- The stream was given what was written of the entries that `left` the queue, and before its last
  -- flush what was written of the first `flushed` of them.
  pub record Streams (r : Receiver (Recording Stream E)) (left : List (Left E)) (flushed : ℕ)
      : Type 0 where
    pub given : r.stream.given ≡ written_of left
    pub flushed_at : r.stream.flushed_at ≡ length (written_of (take flushed left))
    pub within : flushed ≤ length left

  -- An entry leaves the queue.
  left-Streams :
      (r r' : Receiver (Recording Stream E)) (left : List (Left E)) (flushed : ℕ) (l : Left E)
      → r'.stream.given ≡ r.stream.given ++ written_of (l ∷ [])
      → r'.stream.flushed_at ≡ r.stream.flushed_at
      → Streams r left flushed
      → Streams r' (left ++ l ∷ []) flushed
  left-Streams r r' left flushed l more same v = record {
    given =
        more ∙ ap (λ es. es ++ written_of (l ∷ [])) v.given ∙ sym (written_of-append left (l ∷ []));
    flushed_at =
        same
        ∙ v.flushed_at
        ∙ ap (λ ls. length (written_of ls))
            (sym (take-append_within flushed left (l ∷ []) v.within));
    within = omega (arith, v.within, length-append left (l ∷ []));
  }

  -- The stream is flushed.
  flushed-Streams :
      (observed : Bool) (r : Receiver (Recording Stream E)) (left : List (Left E)) (flushed : ℕ)
      → Streams r left flushed
      → Streams (flush_stream (recorded io_stream) observed r) left (length left)
  flushed-Streams observed r left flushed v =
      let (same, at) = flush_stream-given io_stream observed r in
      record {
        given = same ∙ v.given;
        flushed_at =
            at ∙ ap length v.given ∙ ap (λ ls. length (written_of ls)) (sym (take_all left));
        within = omega arith;
      }

-- `wake_ready` flushes, or leaves the stream alone.
wake_ready_cases :
    {R : Type 0} (flush : R → R) (status : DrainResult) (count : ℕ) (t : WakerTracker FlushSignal)
    (r : R)
    → ((wake_ready flush status count t r).2 ≡ r)
      ⊎ ((wake_ready flush status count t r).2 ≡ flush r)
unfolding wake_ready
wake_ready_cases flush status count t r = elim (Bool-cases (is_empty t.waiting_wakers)) [
  | inl idle ↦ rw idle (inl refl)
  | inr busy ↦ elim (Bool-cases (t.entries_before_wake - count == 0 || is_drained status)) [
    | inl ready ↦ rw (busy, ready) (inr refl)
    | inr waits ↦ rw (busy, waits) (inl refl)
  ]
]

module _ {E : Type 0} (array_queue : ArrayQueue E) (io_stream : EntryIoStream E)
    (observed : Bool) where
  open array_queue use {Queue, capacity, pop, force_push}

  abbrev St : Type 0
  St = System array_queue (recorded io_stream)

  abbrev IsStreamed : St → Type 0
  IsStreamed s = Streams io_stream s.receiver s.left s.flushed

  noted-Streams :
      (left : List (Left E)) (flushed : ℕ) (r : Receiver (Recording io_stream.Stream E))
      (out : Receiver (Recording io_stream.Stream E) × ℕ)
      → Streams io_stream r left flushed
      → (out ≡ (r, flushed))
        ⊎ (out
            ≡ flush_receiver array_queue (recorded io_stream) observed (length left) (r, flushed))
      → Streams io_stream out.0 left out.1
  unfolding flush_receiver
  noted-Streams left flushed r out v (inl e) = rw e v
  noted-Streams left flushed r out v (inr e) =
      rw e (flushed-Streams io_stream observed r left flushed v)

  handle-Streamed :
      (status : DrainResult) (count : ℕ) (s : St)
      → IsStreamed s
      → IsStreamed (handle array_queue (recorded io_stream) observed status count s)
  unfolding handle handle_waiting_wakers
  handle-Streamed status count s v =
      let v' = noted-Streams s.left s.flushed s.receiver _ v (
        wake_ready_cases (flush_receiver array_queue (recorded io_stream) observed (length s.left))
          status count s.tracker (s.receiver, s.flushed)) in
      record { given = v'.given; flushed_at = v'.flushed_at; within = v'.within }

  drain-Streamed :
      (m : Moment) (more : ℕ → Pc) (done : DrainResult → ℕ → Pc) (count : ℕ) (s : St)
      → IsStreamed s
      → IsStreamed (drain_until_deadline array_queue (recorded io_stream) m more done count s)
  unfolding drain_until_deadline
  drain-Streamed m more done count s v = elim (Option-cases (pop s.queue).0) [
    | inl e ↦ rw (e, drain_until_deadline) v
    | inr (x, e) ↦
        let (given, same) = consume-given io_stream m x s.receiver in
        rw (e, drain_until_deadline)
          (left-Streams io_stream s.receiver _ s.left s.flushed (written x) given same v)
  ]

  flush_cycle-Streamed :
      (m : Moment) (s : St)
      → IsStreamed s
      → IsStreamed (flush_cycle array_queue (recorded io_stream) observed m s)
  unfolding flush_cycle
  flush_cycle-Streamed m s v =
      let v' = flushed-Streams io_stream observed s.receiver s.left s.flushed v in
      record { given = v'.given; flushed_at = v'.flushed_at; within = v'.within }

  act_on-Streamed :
      (a : LoopAction) (s : St)
      → IsStreamed s
      → IsStreamed (act_on array_queue (recorded io_stream) observed a s)
  unfolding act_on
  act_on-Streamed LoopAction.flush s v = v
  act_on-Streamed LoopAction.continue s v = v
  act_on-Streamed LoopAction.park s v = v

  dispatch-Streamed :
      (m : Moment) (pc : Pc) (s : St)
      → IsStreamed s
      → IsStreamed (dispatch array_queue (recorded io_stream) observed m pc s)
  unfolding dispatch finish
  dispatch-Streamed m (draining count) s v = drain-Streamed m draining handling count s v
  dispatch-Streamed m (handling status count) s v = handle-Streamed status count s v
  dispatch-Streamed m (choosing status) s v = act_on-Streamed _ s v
  dispatch-Streamed m checking s v = v
  dispatch-Streamed m flushing s v = flush_cycle-Streamed m s v
  dispatch-Streamed m ending s v = v
  dispatch-Streamed m (shut_draining count) s v =
      drain-Streamed m shut_draining (λ status _. shut_flushing status) count s v
  dispatch-Streamed m (shut_flushing status) s v =
      flushed-Streams io_stream observed s.receiver s.left s.flushed v
  dispatch-Streamed m finished s v = v

  append-Streamed :
      (e : E) (s : St)
      → IsStreamed s
      → IsStreamed (append array_queue (recorded io_stream) observed e s)
  unfolding append
  append-Streamed e s v = elim (Option-cases (force_push s.queue e).0) [
    | inl kept ↦ rw (kept, append) v
    | inr (old, out) ↦
        rw (out, append)
          (left-Streams io_stream s.receiver _ s.left s.flushed (evicted old)
            (ground (arith, append-nil s.receiver.stream.given)) (ground arith) v)
  ]

  flush_async-Streamed :
      (s : St) → IsStreamed s → IsStreamed (flush_async array_queue (recorded io_stream) observed s)
  unfolding flush_async
  flush_async-Streamed s v = ground (arith, v)

  act-Streamed :
      (a : Action E) (s : St)
      → IsStreamed s
      → IsStreamed (act array_queue (recorded io_stream) observed a s)
  unfolding act thread_step request_shutdown
  act-Streamed (step m) s v = dispatch-Streamed m s.pc s v
  act-Streamed (push e) s v = elim (Bool-cases (s.handles == 0)) [
    | inl none_left ↦ rw none_left v
    | inr some_left ↦ rw some_left (append-Streamed e s v)
  ]
  act-Streamed request_flush s v = elim (Bool-cases (s.handles == 0)) [
    | inl none_left ↦ rw none_left v
    | inr some_left ↦ rw some_left (flush_async-Streamed s v)
  ]
  act-Streamed shut_down s v = v
  act-Streamed clone_queue s v = elim (Bool-cases (s.handles == 0)) [
    | inl none_left ↦ rw none_left v
    | inr some_left ↦ rw some_left v
  ]
  act-Streamed drop_queue s v = v

  run-Streamed :
      (actions : List (Action E)) (s : St)
      → IsStreamed s
      → IsStreamed (run array_queue (recorded io_stream) observed actions s)
  unfolding run
  run-Streamed [] s v = v
  run-Streamed (a ∷ actions) s v =
      run-Streamed actions (act array_queue (recorded io_stream) observed a s) (act-Streamed a s v)

  -- The stream follows the queue in every run from the start.
  pub run-do_build-Streamed :
      (n : ℕ) (stream : io_stream.Stream) (actions : List (Action E))
      → IsStreamed (
          run array_queue
            (recorded io_stream)
            observed
            actions
            (do_build array_queue (recorded io_stream) n (fresh io_stream stream)))
  unfolding do_build
  run-do_build-Streamed n stream actions =
      run-Streamed actions _ (record { given = refl; flushed_at = refl; within = omega arith })
