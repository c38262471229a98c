-- ===== src/Background/System/Flushed.antt =====
-- Safety of the background queue under every interleaving.
use mathlib.Core.List.{tail}
use metrique.Prelude.{
  ℕ, ◌≤◌, ◌<◌, ◌≡◌, sym, Bool, Option, none, some, List, [], ◌∷◌, ◌++◌, map, append-nil, length,
  front, ltb, if◌then◌else◌, arith,
}
use metrique.ArrayQueue.{ArrayQueue, push_entries}
use metrique.Background.Waker
use metrique.Background.Receiver.{EntryIoStream}
use metrique.Background.System.{Left, evicted, entry_of, System, do_build}
use metrique.Background.System.Calls.{Action, append, run}
use metrique.Background.System.Inv.{SentBy, Inv}
use metrique.Background.System.Steps.{run-Inv}
use metrique.Background.Receiver.Recorded.{recorded, fresh}
use metrique.Background.System.Streamed.{Streams, run-do_build-Streamed}

module _ {E : Type 0} (array_queue : ArrayQueue E) (io_stream : EntryIoStream E)
    (observed : Bool) where
  open array_queue use {capacity, contents, evicted-force_push, contents-force_push}

  abbrev St : Type 0
  St = System array_queue io_stream

  pub do_build-Inv :
      (n : ℕ) (stream : io_stream.Stream)
      → 0 < n
      → Inv array_queue io_stream observed (do_build array_queue io_stream n stream)
  unfolding do_build Waker.new
  do_build-Inv n stream h = record {
    room = rw array_queue.capacity-new h;
    within = rw array_queue.contents-new (omega arith);
    accounted = sym (array_queue.contents-new n);
    sent = tt;
    waiting = tt;
    known = tt;
    flushed = omega arith;
    woken = tt;
  }

  -- A queue built with a capacity, and what becomes of it.
  abbrev pub reached : ℕ → io_stream.Stream → List (Action E) → St
  reached n stream actions =
      run array_queue io_stream observed actions (do_build array_queue io_stream n stream)

  -- Whatever the threads do and in whatever order, `handle_waiting_wakers` wakes a flush request
  -- only after all entries appended before the request have left the queue and the stream was
  -- flushed after that.
  pub woken_after_flush :
      (n : ℕ) (stream : io_stream.Stream) (actions : List (Action E))
      → 0 < n
      → let s = reached n stream actions in SentBy s.flushed s.woken × (s.flushed ≤ length s.left)
  woken_after_flush n stream actions h =
      let v = run-Inv array_queue io_stream observed actions _ (do_build-Inv n stream h) in
      (v.woken, v.flushed)

  abbrev pub evicted_entry : Option E → List (Left E)
  evicted_entry none = []
  evicted_entry (some old) = evicted old ∷ []

  -- An append to a queue with room evicts nothing, and one to a full queue evicts the oldest entry
  -- alone; the new entry is queued last in both cases.
  pub append_evicts_oldest :
      (e : E) (s : St)
      → let xs = contents s.queue in
        let s' = append array_queue io_stream observed e s in
        ◌≡◌ {A = List (Left E) × List E}
          (s'.left, contents s'.queue)
          (if ltb (length xs) (capacity s.queue)
            then (s.left, xs ++ e ∷ [])
            else (s.left ++ evicted_entry (front xs), tail xs ++ e ∷ []))
  unfolding append push_entries
  append_evicts_oldest e s =
      ground (arith, evicted-force_push s.queue e, contents-force_push s.queue e, append-nil s.left)

module _ {E : Type 0} (array_queue : ArrayQueue E) (io_stream : EntryIoStream E)
    (observed : Bool) where
  open array_queue use {capacity, contents}

  -- Whatever the threads do and in whatever order, the entries appended to a queue of positive
  -- capacity are, in order, those written or evicted, each once, and then those still queued, which
  -- are at most as many as the capacity. Those written are what the stream was given, in their order
  -- and each once, and before its last flush it was given those among the first `flushed` that left
  -- the queue.
  pub no_entry_lost :
      (n : ℕ) (stream : io_stream.Stream) (actions : List (Action E))
      → 0 < n
      → let s =
          reached array_queue (recorded io_stream) observed n (fresh io_stream stream) actions in
        (s.pushed ≡ map entry_of s.left ++ contents s.queue)
        × (length (contents s.queue) ≤ capacity s.queue)
        × Streams io_stream s.receiver s.left s.flushed
  no_entry_lost n stream actions h =
      let v =
        run-Inv array_queue (recorded io_stream) observed actions _
          (do_build-Inv array_queue (recorded io_stream) observed n (fresh io_stream stream) h) in
      (v.accounted, v.within, run-do_build-Streamed array_queue io_stream observed n stream actions)
