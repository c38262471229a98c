-- ===== src/Background/System/Handle.antt =====
-- A call of `handle_waiting_wakers` keeps the invariant.
use metrique.Prelude.{
  ℕ, ◌+◌, ◌-◌, ◌≤◌, ◌≡◌, refl, Bool, true, ◌||◌, List, [], ◌∷◌, length, Bool-cases, inl, inr, arith,
  ◌==◌,
}
use metrique.ArrayQueue.{ArrayQueue}
use metrique.Background.Waker.{
  is_drained, is_empty, DrainResult, WakerTracker, wake_ready, receive_all, collect,
}
use metrique.Background.Waker.Order.{receive_all_lem}
use metrique.Background.Receiver.{EntryIoStream}
use metrique.Background.System.{FlushSignal, handling, System}
use metrique.Background.System.Thread.{handle, flush_receiver}
use metrique.Background.System.Inv.{
  SentBy, SentBy-mono, SentBy-append, allowance, Inv, length-pushed,
}

-- What `wake_ready` does to bounds on the requests, where `flush` notes the number `gone` of
-- entries that have left the queue.
record Bounds (gone pushed cap : ℕ) (status : DrainResult) (count : ℕ)
    (t : WakerTracker FlushSignal) : Type 0 where
  waiting : SentBy (gone + allowance (handling status count) t.entries_before_wake) t.waiting_wakers
  known : SentBy pushed t.waiting_wakers
  sent : SentBy pushed t.flush_queue_receiver

receive_all-SentBy :
    (n : ℕ) (ws vs : List FlushSignal) → SentBy n ws → SentBy n vs → SentBy n (receive_all ws vs)
receive_all-SentBy n ws vs h k = rw receive_all_lem (SentBy-append n ws vs h k)

SentBy-empty : (n : ℕ) (ws : List FlushSignal) → is_empty ws ≡ true → SentBy n ws
SentBy-empty n [] h = tt
SentBy-empty n (w ∷ ws) h = absurd (ground arith)

module _ {R : Type 0} (flush : R × ℕ → R × ℕ) (gone pushed cap : ℕ)
    (notes : (r : R × ℕ) → (flush r).1 ≡ gone) where
  record Handled (r : R × ℕ) (out : WakerTracker FlushSignal × List FlushSignal × (R × ℕ))
      : Type 0 where
    waiting : SentBy (gone + out.0.entries_before_wake) out.0.waiting_wakers
    known : SentBy pushed out.0.waiting_wakers
    sent : SentBy pushed out.0.flush_queue_receiver
    flushed : out.2.1 ≤ gone
    later : r.1 ≤ out.2.1
    woken : SentBy out.2.1 out.1

  wake_ready-Handled :
      (status : DrainResult) (count : ℕ) (t : WakerTracker FlushSignal) (r : R × ℕ)
      → r.1 ≤ gone
      → Bounds gone pushed cap status count t
      → Handled r (wake_ready flush status count t r)
  unfolding wake_ready
  wake_ready-Handled status count t r h b = elim (Bool-cases (is_empty t.waiting_wakers)) [
    | inl idle ↦ rw idle (record {
      waiting =
          SentBy-mono (gone + allowance (handling status count) t.entries_before_wake) _
            t.waiting_wakers (ground arith) b.waiting;
      known = b.known;
      sent = b.sent;
      flushed = h;
      later = omega arith;
      woken = tt;
    })
    | inr busy ↦ elim (Bool-cases (t.entries_before_wake - count == 0 || is_drained status)) [
      | inl ready ↦
          rw (busy, ready)
            (record {
              waiting = tt;
              known = tt;
              sent = b.sent;
              flushed = omega (arith, notes r);
              later = omega (arith, notes r);
              woken =
                  SentBy-mono (gone + allowance (handling status count) t.entries_before_wake) _
                    t.waiting_wakers (ground (arith, notes r)) b.waiting;
            })
      | inr waits ↦
          rw (busy, waits)
            (record {
              waiting =
                  SentBy-mono (gone + allowance (handling status count) t.entries_before_wake) _
                    t.waiting_wakers (ground arith) b.waiting;
              known = b.known;
              sent = b.sent;
              flushed = h;
              later = omega arith;
              woken = tt;
            })
    ]
  ]

  collect-Handled :
      (r : R × ℕ) (out : WakerTracker FlushSignal × List FlushSignal × (R × ℕ))
      → pushed ≤ gone + cap
      → Handled r out
      → Handled r (collect cap out.0, out.1, out.2)
  unfolding collect
  collect-Handled r out h b =
      let received = receive_all out.0.waiting_wakers out.0.flush_queue_receiver in
      let known =
        receive_all-SentBy pushed out.0.waiting_wakers out.0.flush_queue_receiver b.known b.sent in
      elim (Bool-cases (is_empty out.0.waiting_wakers)) [
        | inl idle ↦ elim (Bool-cases (is_empty received)) [
          | inl none_sent ↦
              rw (idle, none_sent)
                (record {
                  waiting = SentBy-empty _ received none_sent;
                  known = known;
                  sent = tt;
                  flushed = b.flushed;
                  later = b.later;
                  woken = b.woken;
                })
          | inr some_sent ↦
              rw (idle, some_sent)
                (record {
                  waiting = SentBy-mono pushed _ received h known;
                  known = known;
                  sent = tt;
                  flushed = b.flushed;
                  later = b.later;
                  woken = b.woken;
                })
        ]
        | inr busy ↦ rw busy b
      ]

module _ {E : Type 0} (array_queue : ArrayQueue E) (io_stream : EntryIoStream E)
    (observed : Bool) where
  open array_queue use {capacity, contents}

  abbrev St : Type 0
  St = System array_queue io_stream

  pub handle-Inv :
      (status : DrainResult) (count : ℕ) (s : St)
      → s.pc ≡ handling status count
      → Inv array_queue io_stream observed s
      → Inv array_queue io_stream observed (handle array_queue io_stream observed status count s)
  unfolding handle
  handle-Inv status count s at_pc v =
      let gone = length s.left in
      let flush = flush_receiver array_queue io_stream observed gone in
      let bounds : Bounds gone (length s.pushed) (capacity s.queue) status count s.tracker =
        record { waiting = rw at_pc at v.waiting; known = v.known; sent = v.sent } in
      let woke =
        wake_ready-Handled flush gone (length s.pushed) (capacity s.queue) (λ r. refl) status count
          s.tracker (s.receiver, s.flushed) v.flushed bounds in
      let out = wake_ready flush status count s.tracker (s.receiver, s.flushed) in
      let done =
        collect-Handled flush gone (length s.pushed) (capacity s.queue) (λ r. refl)
          (s.receiver, s.flushed) out
          (omega (arith, length-pushed array_queue io_stream observed s v, v.within)) woke in
      record {
        room = v.room;
        within = v.within;
        accounted = v.accounted;
        sent = done.sent;
        waiting = done.waiting;
        known = done.known;
        flushed = done.flushed;
        woken =
            SentBy-append _ s.woken out.1 (SentBy-mono s.flushed _ s.woken done.later v.woken)
              done.woken;
      }
