-- ===== src/Background/System/Appending.antt =====
-- An append and the sending of a flush request keep the invariant.
use mathlib.Core.List.{tail}
use metrique.Prelude.{
  ◌+◌, ◌≤◌, sym, ap, ◌∙◌, Bool, [], ◌∷◌, ◌++◌, map, map-append, append_assoc, length, length-append,
  Bool-cases, inl, inr, arith,
}
use metrique.ArrayQueue.{ArrayQueue, length-push_entries, push_entries_cases}
use metrique.Background.Receiver.{EntryIoStream}
use metrique.Background.System.{evicted, entry_of, System}
use metrique.Background.System.Calls.{is_finished, append, flush_async}
use metrique.Background.System.Inv.{SentBy-mono, SentBy-append, allowance, Inv}

module _ {E : Type 0} (array_queue : ArrayQueue E) (io_stream : EntryIoStream E)
    (observed : Bool) where
  open array_queue use {
    Queue, capacity, contents, force_push, evicted-force_push, contents-force_push,
    capacity-force_push,
  }

  abbrev St : Type 0
  St = System array_queue io_stream

  abbrev IsInv : St → Type 0
  IsInv s = Inv array_queue io_stream observed s

  pub appended-Inv : (e : E) (s : St) → IsInv s → IsInv (append array_queue io_stream observed e s)
  unfolding append
  appended-Inv e s v =
      let q = s.queue in
      let gone = map entry_of s.left in
      let evicted_is = evicted-force_push q e in
      let contents_are = contents-force_push q e in
      let size = length-append s.pushed (e ∷ []) in
      let within' : length (contents (force_push q e).1) ≤ capacity (force_push q e).1 =
        rw (contents_are, capacity-force_push q e)
          (length-push_entries (capacity q) (contents q) e v.room v.within) in
      elim (push_entries_cases (capacity q) (contents q) e v.room) [
        | inl (kept, more) ↦
            rw (evicted_is ∙ kept, append)
              (record {
                room = rw capacity-force_push v.room;
                within = within';
                accounted =
                    ap (λ xs. xs ++ e ∷ []) v.accounted
                    ∙ append_assoc gone (contents q) (e ∷ [])
                    ∙ ap (λ xs. gone ++ xs) (sym (contents_are ∙ more));
                sent =
                    SentBy-mono (length s.pushed) _ s.tracker.flush_queue_receiver
                      (omega (arith, size)) v.sent;
                waiting = v.waiting;
                known =
                    SentBy-mono (length s.pushed) _ s.tracker.waiting_wakers (omega (arith, size))
                      v.known;
                flushed = v.flushed;
                woken = v.woken;
              })
        | inr (old, out, was, more) ↦
            let grows = length-append s.left (evicted old ∷ []) in
            rw (evicted_is ∙ out, append)
              (record {
                room = rw capacity-force_push v.room;
                within = within';
                accounted =
                    ap (λ xs. xs ++ e ∷ []) (v.accounted ∙ ap (λ xs. gone ++ xs) was)
                    ∙ append_assoc gone (old ∷ tail (contents q)) (e ∷ [])
                    ∙ rw (contents_are ∙ more, map-append)
                        (sym (append_assoc gone (old ∷ []) (tail (contents q) ++ e ∷ [])));
                sent =
                    SentBy-mono (length s.pushed) _ s.tracker.flush_queue_receiver
                      (omega (arith, size)) v.sent;
                waiting =
                    SentBy-mono (length s.left + allowance s.pc s.tracker.entries_before_wake) _
                      s.tracker.waiting_wakers (omega (arith, grows)) v.waiting;
                known =
                    SentBy-mono (length s.pushed) _ s.tracker.waiting_wakers (omega (arith, size))
                      v.known;
                flushed = omega (arith, grows, v.flushed);
                woken = v.woken;
              })
      ]

  pub flush_async-Inv : (s : St) → IsInv s → IsInv (flush_async array_queue io_stream observed s)
  unfolding flush_async
  flush_async-Inv s v = elim (Bool-cases (is_finished s.pc)) [
    | inl ended ↦
        rw (ended, flush_async)
          (record {
            room = v.room;
            within = v.within;
            accounted = v.accounted;
            sent = v.sent;
            waiting = v.waiting;
            known = v.known;
            flushed = v.flushed;
            woken = v.woken;
          })
    | inr runs ↦
        rw (runs, flush_async)
          (record {
            room = v.room;
            within = v.within;
            accounted = v.accounted;
            sent = SentBy-append _ s.tracker.flush_queue_receiver _ v.sent (omega arith);
            waiting = v.waiting;
            known = v.known;
            flushed = v.flushed;
            woken = v.woken;
          })
  ]
