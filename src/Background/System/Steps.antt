-- ===== src/Background/System/Steps.antt =====
-- Every action keeps the invariant.
use metrique.Prelude.{
  ℕ, ◌+◌, ◌-◌, ◌≤◌, ◌≡◌, refl, Bool, true, List, [], ◌∷◌, length, Bool-cases, inl, inr, arith, ◌==◌,
}
use metrique.ArrayQueue.{ArrayQueue}
use metrique.Background.Waker
use metrique.Background.Waker.{
  drained, hit_deadline, DrainResult, LoopAction, next_loop_action, will_progress_on_drained_queue,
}
use metrique.Background.Receiver.{EntryIoStream, Moment}
use metrique.Background.System.{
  Pc, draining, handling, choosing, checking, flushing, ending, shut_draining, shut_flushing,
  finished, System,
}
use metrique.Background.System.Thread.{thread_step, act_on, flush_cycle, finish, dispatch}
use metrique.Background.System.Calls.{
  Action, step, push, request_flush, shut_down, clone_queue, drop_queue, request_shutdown, act, run,
}
use metrique.Background.System.Inv.{SentBy-mono, allowance, Inv, drain-Inv}
use metrique.Background.System.Handle.{handle-Inv}
use metrique.Background.System.Appending.{appended-Inv, flush_async-Inv}

module _ {E : Type 0} (array_queue : ArrayQueue E) (io_stream : EntryIoStream E)
    (observed : Bool) where
  open array_queue use {
    Queue, capacity, contents, force_push, evicted-force_push, contents-force_push,
    capacity-force_push,
  }

  abbrev St : Type 0
  St = System array_queue io_stream

  abbrev IsInv : St → Type 0
  IsInv s = Inv array_queue io_stream observed s

  -- The thread may move on to any place that allows for as many entries.
  move-Inv :
      (pc' : Pc) (s : St)
      → allowance s.pc s.tracker.entries_before_wake ≤ allowance pc' s.tracker.entries_before_wake
      → IsInv s
      → IsInv (record s { pc = pc' })
  move-Inv pc' s h v = record {
    room = v.room;
    within = v.within;
    accounted = v.accounted;
    sent = v.sent;
    waiting =
        SentBy-mono (length s.left + allowance s.pc s.tracker.entries_before_wake) _
          s.tracker.waiting_wakers (omega arith) v.waiting;
    known = v.known;
    flushed = v.flushed;
    woken = v.woken;
  }

  flush_cycle-Inv :
      (m : Moment) (s : St)
      → s.pc ≡ flushing
      → IsInv s
      → IsInv (flush_cycle array_queue io_stream observed m s)
  unfolding flush_cycle
  flush_cycle-Inv m s at_pc v = record {
    room = v.room;
    within = v.within;
    accounted = v.accounted;
    sent = v.sent;
    waiting = rw at_pc at v.waiting;
    known = v.known;
    flushed = omega arith;
    woken = SentBy-mono s.flushed _ s.woken v.flushed v.woken;
  }

  finish-Inv : (s : St) → IsInv s → IsInv (finish array_queue io_stream observed s)
  unfolding finish Waker.new
  finish-Inv s v = record {
    room = v.room;
    within = v.within;
    accounted = v.accounted;
    sent = tt;
    waiting = tt;
    known = tt;
    flushed = omega arith;
    woken = SentBy-mono s.flushed _ s.woken v.flushed v.woken;
  }

  act_on-Inv :
      (a : LoopAction) (status : DrainResult) (s : St)
      → s.pc ≡ choosing status
      → IsInv s
      → IsInv (act_on array_queue io_stream observed a s)
  unfolding act_on
  act_on-Inv LoopAction.flush status s at_pc v = move-Inv flushing s (ground arith) v
  act_on-Inv LoopAction.continue status s at_pc v = move-Inv checking s (ground arith) v
  act_on-Inv LoopAction.park status s at_pc v = move-Inv checking s (ground arith) v

  dispatch-Inv :
      (m : Moment) (pc : Pc) (s : St)
      → s.pc ≡ pc
      → IsInv s
      → IsInv (dispatch array_queue io_stream observed m pc s)
  unfolding dispatch
  dispatch-Inv m (draining count) s at_pc v =
      drain-Inv array_queue io_stream observed m draining handling count s (ground arith)
        (ground arith) v
  dispatch-Inv m (handling status count) s at_pc v =
      handle-Inv array_queue io_stream observed status count s at_pc v
  dispatch-Inv m (choosing status) s at_pc v = act_on-Inv _ status s at_pc v
  dispatch-Inv m checking s at_pc v = move-Inv _ s (ground arith) v
  dispatch-Inv m flushing s at_pc v = flush_cycle-Inv m s at_pc v
  dispatch-Inv m ending s at_pc v = move-Inv _ s (ground arith) v
  dispatch-Inv m (shut_draining count) s at_pc v =
      drain-Inv array_queue io_stream observed m shut_draining (λ status _. shut_flushing status)
        count s (ground arith) (ground arith) v
  dispatch-Inv m (shut_flushing status) s at_pc v = finish-Inv s v
  dispatch-Inv m finished s at_pc v = v

  control-Inv :
      (signal : Bool) (handles : ℕ) (s : St)
      → IsInv s
      → IsInv (record s { shutdown_signal = signal; handles = handles })
  control-Inv signal handles s v = record {
    room = v.room;
    within = v.within;
    accounted = v.accounted;
    sent = v.sent;
    waiting = v.waiting;
    known = v.known;
    flushed = v.flushed;
    woken = v.woken;
  }

  act-Inv : (a : Action E) (s : St) → IsInv s → IsInv (act array_queue io_stream observed a s)
  unfolding act
  act-Inv (step m) s v = unfold thread_step in dispatch-Inv m s.pc s refl v
  act-Inv (push e) s v = elim (Bool-cases (s.handles == 0)) [
    | inl none_left ↦ rw none_left v
    | inr some_left ↦ rw some_left (appended-Inv array_queue io_stream observed e s v)
  ]
  act-Inv request_flush s v = elim (Bool-cases (s.handles == 0)) [
    | inl none_left ↦ rw none_left v
    | inr some_left ↦ rw some_left (flush_async-Inv array_queue io_stream observed s v)
  ]
  act-Inv shut_down s v = unfold request_shutdown in control-Inv true s.handles s v
  act-Inv clone_queue s v = elim (Bool-cases (s.handles == 0)) [
    | inl none_left ↦ rw none_left v
    | inr some_left ↦ rw some_left (control-Inv s.shutdown_signal (s.handles + 1) s v)
  ]
  act-Inv drop_queue s v = control-Inv s.shutdown_signal (s.handles - 1) s v

  -- Every sequence of actions, in any order, keeps the invariant.
  pub run-Inv :
      (actions : List (Action E)) (s : St)
      → IsInv s
      → IsInv (run array_queue io_stream observed actions s)
  unfolding run
  run-Inv [] s v = v
  run-Inv (a ∷ actions) s v =
      run-Inv actions (act array_queue io_stream observed a s) (act-Inv a s v)
