-- ===== src/Background/Tests.antt =====
-- Runs of the background queue over the shuttle queue and a stream that follows a script.
use metrique.Prelude.{
  ℕ, ◌≤◌, ◌<◌, ◌≡◌, refl, true, false, Option, none, some, List, [], ◌∷◌, ◌++◌, front, length,
  arith, map, replicate, inr,
}
use mathlib.Core.List.{tail}
use metrique.ArrayQueue.Shuttle.{shuttle_queue, force_push, pop, len}
use metrique.Background.Waker
use metrique.Background.Waker.{
  WakerTracker, drained, hit_deadline, handle_waiting_wakers, receive_all, next_loop_action,
  will_progress_on_drained_queue,
}
use metrique.Background.Waker.Order.{Turn, turns, pending-turns, pending}
use metrique.Background.Waker.Liveness.{woken_in_order}
use metrique.Background.Waker.Bound.{wakes_late, one_entry}
use metrique.Background.Receiver.{
  EntryIoStream, IoStreamError, validation, io, Moment, consume, flush_stream,
}
use metrique.Background.Receiver.Counts.{
  Use, write, flush_all, uses, start, IsCounted, uses-start-IsCounted,
}
use metrique.Background.System.{System, written, evicted, entry_of, do_build, ending}
use metrique.Background.System.Calls.{Action, step, push, request_flush, run, act}
use metrique.Background.Receiver.Recorded.{recorded, fresh}
use metrique.Background.System.Streamed.{Streams}
use metrique.Background.System.Inv.{SentBy}
use metrique.Background.System.Flushed.{no_entry_lost, woken_after_flush, reached}
use metrique.Background.System.Shutdown.{thread_steps, Ended, shut_down_drains}

-- The results of the writes to come.
abbrev scripted : EntryIoStream ℕ
scripted = record {
  Stream = List (Option IoStreamError);
  next = λ s i.
      (let r : Option IoStreamError = elim (front s) [ none ↦ none | some r ↦ r ] in r, tail s);
  flush = λ s. (true, s);
}

abbrev calm : Moment
calm = record { past_deadline = false; rate_allows = true; no_subscriber = true; idle_percent = 0 }

abbrev late : Moment
late = record { past_deadline = true; rate_allows = true; no_subscriber = true; idle_percent = 0 }

-- Three entries into a queue of two, then a flush request, then the thread.
abbrev story : List (Action ℕ)
story =
    push 1
    ∷ push 2
    ∷ push 3
    ∷ request_flush
    ∷ step calm
    ∷ step calm
    ∷ step calm
    ∷ step calm
    ∷ step calm
    ∷ step calm
    ∷ push 4
    ∷ step calm
    ∷ step calm
    ∷ step calm
    ∷ []

abbrev told : System (shuttle_queue ℕ) scripted
told = reached (shuttle_queue ℕ) scripted true 2 [] story

story_left : told.left ≡ evicted 1 ∷ written 2 ∷ written 3 ∷ written 4 ∷ []
unfolding run act do_build Waker.new force_push pop len consume flush_stream handle_waiting_wakers
    receive_all next_loop_action will_progress_on_drained_queue
story_left = refl

story_woken : told.woken ≡ record { sent_at = 3 } ∷ []
unfolding run act do_build Waker.new force_push pop len consume flush_stream handle_waiting_wakers
    receive_all next_loop_action will_progress_on_drained_queue
story_woken = refl

woken_after_flush_example : SentBy told.flushed told.woken × (told.flushed ≤ length told.left)
woken_after_flush_example =
    woken_after_flush (shuttle_queue ℕ) scripted true 2 [] story (omega arith)

-- The same over a stream that records what it is given.
abbrev recorded_story : System (shuttle_queue ℕ) (recorded scripted)
recorded_story = reached (shuttle_queue ℕ) (recorded scripted) true 2 (fresh scripted []) story

story_given : recorded_story.receiver.stream.given ≡ 2 ∷ 3 ∷ 4 ∷ []
unfolding run act do_build Waker.new force_push pop len consume flush_stream handle_waiting_wakers
    receive_all next_loop_action will_progress_on_drained_queue
story_given = refl

no_entry_lost_example :
    (recorded_story.pushed ≡ map entry_of recorded_story.left ++ recorded_story.queue.inner)
    × (length recorded_story.queue.inner ≤ recorded_story.queue.cap)
    × Streams scripted recorded_story.receiver recorded_story.left recorded_story.flushed
no_entry_lost_example = no_entry_lost (shuttle_queue ℕ) scripted true 2 [] story (omega arith)

-- A queue of which the owner asks for the end, with two entries left in it.
abbrev stopped : System (shuttle_queue ℕ) (recorded scripted)
stopped = record (do_build (shuttle_queue ℕ) (recorded scripted) 2 (fresh scripted [])) {
  queue = record { cap = 2; inner = 7 ∷ 8 ∷ [] };
  shutdown_signal = true;
  pc = ending;
}

shut_down_drains_example :
    Ended
      (shuttle_queue ℕ)
      scripted
      true
      stopped.receiver.stream.given
      (7 ∷ 8 ∷ [])
      (thread_steps (shuttle_queue ℕ) scripted true (calm ∷ calm ∷ calm ∷ calm ∷ calm ∷ []) stopped)
shut_down_drains_example =
    shut_down_drains (shuttle_queue ℕ) scripted true (calm ∷ calm ∷ calm ∷ calm ∷ calm ∷ []) stopped
      (refl, (refl, (refl, (refl, (refl, tt))))) (omega arith) refl refl

abbrev waiting_tracker : WakerTracker ℕ
waiting_tracker = record {
  waiting_wakers = 1 ∷ [];
  entries_before_wake = 2;
  flush_queue_receiver = 2 ∷ [];
}

abbrev at_deadline : Turn ℕ
at_deadline = record { sent = []; status = hit_deadline; entry_count = 1 }

abbrev four_turns : List (Turn ℕ)
four_turns = at_deadline ∷ at_deadline ∷ at_deadline ∷ at_deadline ∷ []

one : 0 < 1
one = omega arith

woken_in_order_example : (later : List ℕ) × ((turns 2 waiting_tracker four_turns).1 ≡ 1 ∷ 2 ∷ later)
woken_in_order_example =
    woken_in_order 2 waiting_tracker four_turns (omega arith)
      (record { bounded = omega arith; waits = λ _. omega arith }) (omega arith)
      (inr one, (inr one, (inr one, (inr one, tt))))

wakes_late_example : (turns 2 waiting_tracker (replicate 3 one_entry)).1 ≡ 1 ∷ []
wakes_late_example = wakes_late 2 1 2 (omega arith)

pending-turns_example :
    (turns 2 waiting_tracker four_turns).1 ++ pending (turns 2 waiting_tracker four_turns).0
    ≡ 1 ∷ 2 ∷ []
pending-turns_example = pending-turns 2 waiting_tracker four_turns

abbrev two_uses : List (Use ℕ)
two_uses = write calm 5 ∷ write late 6 ∷ flush_all ∷ []

uses-start-IsCounted_example :
    IsCounted scripted
      (uses scripted true two_uses (start scripted (some validation ∷ none ∷ some io ∷ [])))
uses-start-IsCounted_example =
    uses-start-IsCounted scripted true two_uses (some validation ∷ none ∷ some io ∷ [])

uses_told :
    (uses scripted true two_uses
      (start scripted (some validation ∷ none ∷ some io ∷ []))).stream.failed
    ≡ 1
unfolding uses consume flush_stream
uses_told = refl
