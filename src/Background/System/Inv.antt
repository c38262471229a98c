-- ===== src/Background/System/Inv.antt =====
-- The invariant of the queue and its thread, and that draining keeps it.
use metrique.Prelude.{
  ℕ, suc, ◌+◌, ◌-◌, ◌≤◌, ◌<◌, ◌≡◌, refl, sym, ap, ◌∙◌, Bool, none, some, List, [], ◌∷◌, ◌++◌, map,
  map-append, append_assoc, length, length-append, All, All-append, Option-cases, inl, inr, u64,
  arith,
}
use metrique.ArrayQueue.{ArrayQueue}
use metrique.Background.Waker.{drained, hit_deadline, DrainResult}
use metrique.Background.Receiver.{EntryIoStream, Moment}
use metrique.Background.System.{
  FlushSignal, Pc, draining, handling, choosing, checking, flushing, ending, shut_draining,
  shut_flushing, finished, Left, written, entry_of, System,
}
use metrique.Background.System.Thread.{drain_until_deadline}

-- Every request was sent when at most `n` entries had been appended.
abbrev pub SentBy : ℕ → List FlushSignal → Type 0
SentBy n ws = All (λ w. w.sent_at ≤ n) ws

pub SentBy-mono : (m n : ℕ) (ws : List FlushSignal) → m ≤ n → SentBy m ws → SentBy n ws
SentBy-mono m n [] h s = tt
SentBy-mono m n (w ∷ ws) h s = (omega arith, SentBy-mono m n ws h s.1)

pub SentBy-append :
    (n : ℕ) (ws vs : List FlushSignal) → SentBy n ws → SentBy n vs → SentBy n (ws ++ vs)
SentBy-append n ws vs h k = All-append (λ w. w.sent_at ≤ n) ws vs h k

-- How many entries still have to leave the queue before the waiting requests may be woken.
abbrev pub allowance : Pc → ℕ → ℕ
allowance (draining count) before = before - count
allowance (handling drained count) before = 0
allowance (handling hit_deadline count) before = before - count
allowance (choosing status) before = before
allowance checking before = before
allowance flushing before = before
allowance ending before = before
allowance (shut_draining count) before = before
allowance (shut_flushing status) before = before
allowance finished before = before

module _ {E : Type 0} (array_queue : ArrayQueue E) (io_stream : EntryIoStream E)
    (observed : Bool) where
  open array_queue use {
    Queue, capacity, contents, force_push, pop, evicted-force_push, contents-force_push,
    capacity-force_push, popped-pop, contents-pop, capacity-pop,
  }

  abbrev St : Type 0
  St = System array_queue io_stream

  -- What holds between two actions.
  pub record Inv (s : St) : Type 0 where
    pub room : 0 < capacity s.queue
    pub within : length (contents s.queue) ≤ capacity s.queue
    -- The entries appended, in order, are those that left the queue and those still in it.
    pub accounted : s.pushed ≡ map entry_of s.left ++ contents s.queue
    pub sent : SentBy (length s.pushed) s.tracker.flush_queue_receiver
    pub waiting :
        SentBy
          (length s.left + allowance s.pc s.tracker.entries_before_wake)
          s.tracker.waiting_wakers
    pub known : SentBy (length s.pushed) s.tracker.waiting_wakers
    pub flushed : s.flushed ≤ length s.left
    -- A request was woken only after all that was appended before it had left the queue, and the
    -- stream was then flushed.
    pub woken : SentBy s.flushed s.woken

  length-map : (ls : List (Left E)) → length (map entry_of ls) ≡ length ls
  length-map [] = refl
  length-map (l ∷ ls) = ap suc (length-map ls)

  pub length-pushed : (s : St) → Inv s → length s.pushed ≡ length s.left + length (contents s.queue)
  length-pushed s v = omega (
    arith,
    ap length v.accounted,
    length-append (map entry_of s.left) (contents s.queue),
    length-map s.left,
  )

  popped_none : (q : Queue) → (pop q).0 ≡ none → (contents q ≡ []) × (contents (pop q).1 ≡ [])
  popped_none q e = ground (arith, popped-pop q, contents-pop q)

  popped_some : (q : Queue) (e : E) → (pop q).0 ≡ some e → contents q ≡ e ∷ contents (pop q).1
  popped_some q e h = ground (arith, popped-pop q, contents-pop q)

  -- One round of draining keeps the invariant, wherever it goes on, if that place allows for the
  -- entry taken out.
  pub drain-Inv :
      (m : Moment) (more : ℕ → Pc) (done : DrainResult → ℕ → Pc) (count : ℕ) (s : St)
      → allowance s.pc s.tracker.entries_before_wake
        ≤ allowance (more (u64 (count + 1))) s.tracker.entries_before_wake + 1
      → allowance s.pc s.tracker.entries_before_wake
        ≤ allowance (done hit_deadline (u64 (count + 1))) s.tracker.entries_before_wake + 1
      → Inv s
      → Inv (drain_until_deadline array_queue io_stream m more done count s)
  unfolding drain_until_deadline
  drain-Inv m more done count s h k v = elim (Option-cases (pop s.queue).0) [
    | inl e ↦
        let (was, is) = popped_none s.queue e in
        rw (e, drain_until_deadline)
          (record {
            room = rw capacity-pop v.room;
            within = rw is (omega arith);
            accounted = rw is (rw was at v.accounted);
            sent = v.sent;
            waiting =
                SentBy-mono (length s.pushed) _ s.tracker.waiting_wakers
                  (omega (arith, length-pushed s v, ap length was)) v.known;
            known = v.known;
            flushed = v.flushed;
            woken = v.woken;
          })
    | inr (x, e) ↦
        let was = popped_some s.queue x e in
        let size = length-append s.left (written x ∷ []) in
        rw (e, drain_until_deadline)
          (record {
            room = rw capacity-pop v.room;
            within = rw capacity-pop (omega (arith, v.within, ap length was));
            accounted =
                v.accounted
                ∙ rw (was, map-append)
                    (sym (append_assoc (map entry_of s.left) (x ∷ []) (contents (pop s.queue).1)));
            sent = v.sent;
            waiting =
                SentBy-mono (length s.left + allowance s.pc s.tracker.entries_before_wake) _
                  s.tracker.waiting_wakers (ground (arith, size)) v.waiting;
            known = v.known;
            flushed = omega (arith, v.flushed, size);
            woken = v.woken;
          })
  ]
