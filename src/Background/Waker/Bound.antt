-- ===== src/Background/Waker/Bound.antt =====
-- The bound on how long a flush request waits is met: `queue_capacity` calls do not suffice.
use metrique.Prelude.{
  ℕ, zero, suc, ◌+◌, ◌-◌, ◌*◌, ◌≤◌, ◌<◌, ◌≡◌, refl, ap, List, [], ◌∷◌, ◌++◌, arith, append-nil,
  replicate, append-replicate,
}
use metrique.Background.Waker.{hit_deadline, collect, wake_ready}
use metrique.Background.Waker.Order.{Turn, turn, turns, receive_all_lem}

module _ {W : Type 0} where
  -- A call at a deadline that processed one entry.
  abbrev pub one_entry : Turn W
  one_entry = record { sent = []; status = hit_deadline; entry_count = 1 }

  one_entry_waits :
      (cap n : ℕ) (ws : List W) (w : W) (vs : List W)
      → turn cap
          (record {
            waiting_wakers = w ∷ ws;
            entries_before_wake = suc (suc n);
            flush_queue_receiver = vs;
          })
          one_entry
        ≡ (
          record {
            waiting_wakers = w ∷ ws;
            entries_before_wake = suc n;
            flush_queue_receiver = vs;
          },
          [],
        )
  unfolding turn wake_ready collect
  one_entry_waits cap n ws w vs = ground (arith, append-nil vs)

  one_entry_wakes :
      (cap : ℕ) (ws : List W) (w v : W) (vs : List W)
      → turn cap
          (record {
            waiting_wakers = w ∷ ws;
            entries_before_wake = 1;
            flush_queue_receiver = v ∷ vs;
          })
          one_entry
        ≡ (
          record { waiting_wakers = v ∷ vs; entries_before_wake = cap; flush_queue_receiver = [] },
          w ∷ ws,
        )
  unfolding turn wake_ready collect
  one_entry_wakes cap ws w v vs = ground (arith, receive_all_lem [] (v ∷ vs), append-nil vs)

  none_woken :
      (cap k n : ℕ) (w : W) (vs : List W)
      → k ≤ n
      → (turns cap
          (record {
            waiting_wakers = w ∷ [];
            entries_before_wake = suc n;
            flush_queue_receiver = vs;
          })
          (replicate k one_entry)).1
        ≡ []
  unfolding turns
  none_woken cap zero n w vs h = refl
  none_woken cap (suc k) zero w vs h = absurd (omega arith)
  none_woken cap (suc k) (suc n) w vs h =
      rw (one_entry_waits cap n [] w vs) (none_woken cap k n w vs (omega arith))

  one_woken :
      (cap n k : ℕ) (w v : W)
      → k < cap
      → (turns cap
          (record {
            waiting_wakers = w ∷ [];
            entries_before_wake = suc n;
            flush_queue_receiver = v ∷ [];
          })
          (replicate (suc n) one_entry ++ replicate k one_entry)).1
        ≡ w ∷ []
  unfolding turns
  one_woken zero n k w v h = absurd (omega arith)
  one_woken (suc cap) zero k w v h =
      rw (one_entry_wakes (suc cap) [] w v [])
        (ap (λ vs. w ∷ vs) (none_woken (suc cap) k cap v [] (omega arith)))
  one_woken (suc cap) (suc n) k w v h =
      rw (one_entry_waits (suc cap) n [] w (v ∷ [])) (one_woken (suc cap) n k w v h)

  -- A request `v` that arrives just after the tracker began to wait for `w` is not yet woken by
  -- `2 * cap - 1` calls that processed one entry each, at any capacity.
  pub wakes_late :
      (cap : ℕ) (w v : W)
      → 0 < cap
      → (turns cap
          (record {
            waiting_wakers = w ∷ [];
            entries_before_wake = cap;
            flush_queue_receiver = v ∷ [];
          })
          (replicate (2 * cap - 1) one_entry)).1
        ≡ w ∷ []
  wakes_late zero w v h = absurd (omega arith)
  wakes_late (suc n) w v h =
      let e : 2 * suc n - 1 ≡ suc n + n = omega arith in
      rw (e, ← append-replicate (suc n) n one_entry) (one_woken (suc n) n n w v (omega arith))
