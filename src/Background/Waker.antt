-- ===== src/Background/Waker.antt =====
-- `WakerTracker` of metrique-writer/src/sink/background.rs: which flush requests wait, and for how
-- many more entries. A `W` is a `FlushSignal`, which wakes its requester when it is dropped.
-- The receiving end of the mpsc channel is the list of the signals sent and not yet received.
pub mod Order
pub mod Liveness
pub mod Bound
use metrique.Prelude.{ℕ, ◌-◌, Bool, true, false, ◌||◌, List, [], ◌∷◌, ◌++◌, ◌==◌, if◌then◌else◌}

pub data DrainResult : Type 0 where
  drained : DrainResult
  hit_deadline : DrainResult

abbrev pub is_drained : DrainResult → Bool
is_drained drained = true
is_drained hit_deadline = false

pub data LoopAction : Type 0 where
  flush : LoopAction
  park : LoopAction
  continue : LoopAction

unfoldable pub next_loop_action : DrainResult → Bool → Bool → LoopAction
next_loop_action hit_deadline shutdown_requested can_progress = flush
next_loop_action drained shutdown_requested can_progress =
    if shutdown_requested then flush else if can_progress then continue else park

abbrev pub is_empty {ℓ} : {A : Type ℓ} → List A → Bool
is_empty [] = true
is_empty (x ∷ xs) = false

pub record WakerTracker (W : Type 0) : Type 0 where
  pub waiting_wakers : List W
  pub entries_before_wake : ℕ
  pub flush_queue_receiver : List W

module _ {W : Type 0} where
  unfoldable pub new : List W → WakerTracker W
  new receiver = record {
    waiting_wakers = [];
    entries_before_wake = 0;
    flush_queue_receiver = receiver;
  }

  -- The `while let Ok(entry) = try_recv()` loop: `waiting` and what the channel holds, in order.
  unfoldable pub receive_all : List W → List W → List W
  receive_all waiting [] = waiting
  receive_all waiting (w ∷ ws) = receive_all (waiting ++ w ∷ []) ws

  -- The second half of `handle_waiting_wakers`.
  unfoldable pub collect : ℕ → WakerTracker W → WakerTracker W
  collect queue_capacity t =
      let waiting = receive_all t.waiting_wakers t.flush_queue_receiver in
      let before = if is_empty waiting then t.entries_before_wake else queue_capacity in
      if is_empty t.waiting_wakers
      then record {
        waiting_wakers = waiting;
        entries_before_wake = before;
        flush_queue_receiver = [];
      }
      else t

  -- The first half of `handle_waiting_wakers`: the tracker, the signals dropped, and what
  -- `flush_stream` acts on.
  unfoldable pub wake_ready {ℓ} :
      {R : Type ℓ} → (R → R) → DrainResult → ℕ → WakerTracker W → R → WakerTracker W × List W × R
  wake_ready flush_stream status entry_count t r =
      let before = t.entries_before_wake - entry_count in
      if is_empty t.waiting_wakers
      then (t, [], r)
      else if before == 0 || is_drained status
      then (
        record t { waiting_wakers = []; entries_before_wake = 0 },
        t.waiting_wakers,
        flush_stream r,
      )
      else (record t { entries_before_wake = before }, [], r)

  unfoldable pub handle_waiting_wakers {ℓ} :
      {R : Type ℓ}
      → ℕ
      → (R → R)
      → DrainResult
      → ℕ
      → WakerTracker W
      → R
      → WakerTracker W × List W × R
  unfolding collect wake_ready
  handle_waiting_wakers queue_capacity flush_stream status entry_count t r =
      let (t', woken, r') = wake_ready flush_stream status entry_count t r in
      (collect queue_capacity t', woken, r')

  unfoldable pub will_progress_on_drained_queue : WakerTracker W → Bool
  will_progress_on_drained_queue t = if is_empty t.waiting_wakers then false else true
