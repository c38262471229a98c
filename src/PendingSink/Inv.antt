-- ===== src/PendingSink/Inv.antt =====
-- What holds of the pending sink between two steps.
use mathlib.Core.List.{tail}
use metrique.Prelude.{
  get_elem?, set, total-set, length-set, some, ℕ, ◌+◌, ◌^◌, ◌≤◌, ◌<◌, ◌≡◌, ap, Bool, true, false,
  Option, none, some, List, [], ◌∷◌, total, total-append, length, front, u64, arith, inl, inr,
}
use metrique.ArrayQueue.{ArrayQueue, push_entries_cases}
use metrique.PendingSink.{
  Appender, first_look, cancel_check, entering, second_look, leaving, forwarding, buffering_entry,
  exiting, returned, Resolver, held, draining, draining_entry, resolved, dropped, Pending,
}

module _ {E : Type 0} where
  -- Whether a call counts in `buffering`.
  abbrev pub inside : Appender E → ℕ
  inside (second_look e) = 1
  inside (leaving e) = 1
  inside (buffering_entry e) = 1
  inside exiting = 1
  inside _ = 0

  -- Whether a call is about to write to the buffer.
  abbrev pub writing : Appender E → ℕ
  writing (buffering_entry e) = 1
  writing _ = 0

  -- Whether a call has seen the slot set and has not forwarded its entry.
  abbrev pub passing : Appender E → ℕ
  passing (leaving e) = 1
  passing (forwarding e) = 1
  passing _ = 0

  -- Whether the slot has been set, and whether the loop that waits has ended.
  abbrev pub has_set : Resolver E → Bool
  has_set held = false
  has_set dropped = false
  has_set _ = true

  abbrev pub has_waited : Resolver E → Bool
  has_waited draining = true
  has_waited (draining_entry e) = true
  has_waited resolved = true
  has_waited _ = false

  abbrev pub is_dropped : Resolver E → Bool
  is_dropped dropped = true
  is_dropped _ = false

  pub writing_le : (as' : List (Appender E)) → total writing as' ≤ total inside as'
  writing_le [] = omega arith
  writing_le (a ∷ as') = ground (arith, writing_le as')

  pub inside_le : (as' : List (Appender E)) → total inside as' ≤ length as'
  inside_le [] = omega arith
  inside_le (a ∷ as') = ground (arith, inside_le as')

  module _ (f : E → ℕ) where
    -- The weight of what a call or the resolver holds.
    abbrev pub carried : Appender E → ℕ
    carried (first_look e) = f e
    carried (cancel_check e) = f e
    carried (entering e) = f e
    carried (second_look e) = f e
    carried (leaving e) = f e
    carried (forwarding e) = f e
    carried (buffering_entry e) = f e
    carried exiting = 0
    carried returned = 0

    abbrev pub popped : Resolver E → ℕ
    popped (draining_entry e) = f e
    popped _ = 0

-- What a call's step from `a` to `a'` changes in the sums over all calls.
module _ {E : Type 0} (f : E → ℕ) where
  pub moved :
      (as' : List (Appender E)) (i : ℕ) (a a' : Appender E)
      → get_elem? as' i ≡ some a
      → (total (carried f) (set as' i a') + carried f a ≡ total (carried f) as' + carried f a')
        × (total inside (set as' i a') + inside a ≡ total inside as' + inside a')
        × (total writing (set as' i a') + writing a ≡ total writing as' + writing a')
        × (total passing (set as' i a') + passing a ≡ total passing as' + passing a')
        × (length (set as' i a') ≡ length as')
  moved as' i a a' h = (
    total-set (carried f) as' i a a' h,
    total-set inside as' i a a' h,
    total-set writing as' i a a' h,
    total-set passing as' i a a' h,
    length-set as' i a',
  )

module _ {E : Type 0} (array_queue : ArrayQueue E) where
  open array_queue use {
    Queue, capacity, contents, force_push, pop, evicted-force_push, contents-force_push,
    capacity-force_push, popped-pop, contents-pop, capacity-pop,
  }

  pub record Inv (f : E → ℕ) (s : Pending array_queue) : Type 0 where
    pub room : 0 < capacity s.buffer
    -- Every entry given to `append` is in one place, whatever the entries weigh.
    pub conserved :
        total f s.started
        ≡ total f s.delivered
          + total f s.evicted
          + total f s.discarded
          + total f (contents s.buffer)
          + total (carried f) s.appenders
          + popped f s.resolver
    pub counted : s.buffering ≡ u64 (total inside s.appenders)
    pub calls_length : length s.appenders ≡ length s.started
    pub slot : s.sink ≡ has_set s.resolver
    pub cancel : s.cancelled ≡ is_dropped s.resolver
    -- Once the resolver has waited, no call writes to the buffer any more.
    pub quiet :
        length s.started < 2 ^ 64 → has_waited s.resolver ≡ true → total writing s.appenders ≡ 0
    -- Entries are dropped only after a cancellation, and forwarded only after `resolve`.
    pub kept : s.cancelled ≡ false → s.discarded ≡ []
    pub passed : s.sink ≡ false → total passing s.appenders ≡ 0
    pub silent : s.sink ≡ false → s.delivered ≡ []
    pub emptied : length s.started < 2 ^ 64 → s.resolver ≡ resolved → contents s.buffer ≡ []

  unfoldable pub weight : (E → ℕ) → Option E → ℕ
  weight f none = 0
  weight f (some e) = f e

  total-front : (f : E → ℕ) (xs : List E) → total f xs ≡ weight f (front xs) + total f (tail xs)
  unfolding weight
  total-front f [] = omega arith
  total-front f (x ∷ xs) = omega arith

  pub pop_weight :
      (f : E → ℕ) (q : Queue)
      → total f (contents q) ≡ weight f (pop q).0 + total f (contents (pop q).1)
  pop_weight f q = rw (popped-pop q, contents-pop q) (total-front f (contents q))

  pub push_weight :
      (f : E → ℕ) (q : Queue) (e : E)
      → 0 < capacity q
      → weight f (force_push q e).0 + total f (contents (force_push q e).1)
        ≡ total f (contents q) + f e
  unfolding weight
  push_weight f q e h =
      rw (evicted-force_push q e, contents-force_push q e)
        (elim (push_entries_cases (capacity q) (contents q) e h) [
          | inl (kept, more) ↦ rw (kept, more) (omega (arith, total-append f (contents q) (e ∷ [])))
          | inr (old, out, was, more) ↦
              rw (out, more)
                (omega (arith, total-append f (tail (contents q)) (e ∷ []), ap (total f) was))
        ])
