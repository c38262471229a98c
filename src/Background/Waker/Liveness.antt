-- ===== src/Background/Waker/Liveness.antt =====
-- How long a flush request waits: the bound of `handle_waiting_wakers` in calls.
use metrique.Prelude.{
  ℕ, ◌+◌, ◌*◌, ◌≤◌, ◌<◌, ◌≡◌, ◌⊎◌, refl, ap, List, [], ◌∷◌, ◌++◌, arith, length, length-append,
  prefix_of_append, Bool-cases, inl, inr, true, false, All,
}
use metrique.Background.Waker.{drained, WakerTracker, collect, wake_ready, is_empty}
use metrique.Background.Waker.Order.{
  Turn, turn, turns, pending, pending-turns, arrivals, receive_all_lem,
}

empty_length : {A : Type 0} (xs : List A) → is_empty xs ≡ true → length xs ≡ 0
empty_length [] h = refl
empty_length (x ∷ xs) h = absurd (ground arith)

module _ {W : Type 0} where
  -- A call that drained the queue, or processed an entry.
  abbrev pub Counts : Turn W → Type 0
  Counts c = (c.status ≡ drained) ⊎ (0 < c.entry_count)

  -- What a call with waiting requests does: it wakes them all and takes the newly sent ones, or it
  -- comes closer to waking them.
  record Woke (cap : ℕ) (t : WakerTracker W) (c : Turn W) : Type 0 where
    woken : (turn cap t c).1 ≡ t.waiting_wakers
    taken : (turn cap t c).0.waiting_wakers ≡ t.flush_queue_receiver ++ c.sent
    budget :
        is_empty (t.flush_queue_receiver ++ c.sent) ≡ false
        → (turn cap t c).0.entries_before_wake ≡ cap

  record Waits (cap : ℕ) (t : WakerTracker W) (c : Turn W) : Type 0 where
    woken : (turn cap t c).1 ≡ []
    kept : (turn cap t c).0.waiting_wakers ≡ t.waiting_wakers
    queued : (turn cap t c).0.flush_queue_receiver ≡ t.flush_queue_receiver ++ c.sent
    closer : (turn cap t c).0.entries_before_wake < t.entries_before_wake
    positive : 0 < (turn cap t c).0.entries_before_wake

  turn_cases :
      (cap : ℕ) (t : WakerTracker W) (c : Turn W)
      → is_empty t.waiting_wakers ≡ false
      → Counts c
      → Woke cap t c ⊎ Waits cap t c
  unfolding turn wake_ready collect
  turn_cases cap t c busy counts =
      ground (arith, receive_all_lem [] (t.flush_queue_receiver ++ c.sent))

  -- Waiting requests are woken within `entries_before_wake` calls that count.
  wakes_waiting :
      (cap : ℕ) (t : WakerTracker W) (cs : List (Turn W))
      → is_empty t.waiting_wakers ≡ false
      → t.entries_before_wake ≤ length cs
      → 0 < length cs
      → All Counts cs
      → length t.waiting_wakers ≤ length (turns cap t cs).1
  unfolding turns
  wakes_waiting cap t [] busy enough some_calls counts = elim some_calls [ ]
  wakes_waiting cap t (c ∷ cs) busy enough some_calls counts =
      let rest = (turns cap (turn cap t c).0 cs).1 in
      elim (turn_cases cap t c busy counts.0) [
        | inl w ↦ rw w.woken (omega (arith, length-append t.waiting_wakers rest))
        | inr w ↦ rw w.woken (
            omega (
              arith,
              ap length w.kept,
              wakes_waiting cap (turn cap t c).0 cs (rw w.kept busy) (omega (arith, w.closer))
                  (omega (arith, w.closer, w.positive)) counts.1,
            ))
      ]

  -- Those that arrive meanwhile are woken within another `cap` calls.
  wakes_both :
      (cap : ℕ) (t : WakerTracker W) (cs : List (Turn W))
      → 0 < cap
      → is_empty t.waiting_wakers ≡ false
      → 0 < t.entries_before_wake
      → t.entries_before_wake + cap ≤ length cs
      → All Counts cs
      → length t.waiting_wakers + length t.flush_queue_receiver ≤ length (turns cap t cs).1
  unfolding turns
  wakes_both cap t [] pos busy some_entries enough counts = absurd (omega arith)
  wakes_both cap t (c ∷ cs) pos busy some_entries enough counts =
      let t' = (turn cap t c).0 in
      let rest = (turns cap t' cs).1 in
      let sent = t.flush_queue_receiver ++ c.sent in
      elim (turn_cases cap t c busy counts.0) [
        | inl w ↦ rw w.woken (elim (Bool-cases (is_empty sent)) [
          | inl none_left ↦ omega (
            arith,
            length-append t.waiting_wakers rest,
            length-append t.flush_queue_receiver c.sent,
            empty_length sent none_left,
          )
          | inr more ↦ omega (
            arith,
            length-append t.waiting_wakers rest,
            length-append t.flush_queue_receiver c.sent,
            ap length w.taken,
            wakes_waiting cap t' cs (rw w.taken more) (rw (w.budget more) (omega arith))
                (omega arith) counts.1,
          )
        ])
        | inr w ↦ rw (w.woken) (
            omega (
              arith,
              ap length w.kept,
              ap length w.queued,
              length-append t.flush_queue_receiver c.sent,
              wakes_both cap t' cs pos (rw w.kept busy) w.positive (omega (arith, w.closer))
                  counts.1,
            ))
      ]

  -- A tracker between two calls: who waits, waits for at most `cap` more entries, and for one.
  pub record IsReady (cap : ℕ) (t : WakerTracker W) : Type 0 where
    pub bounded : t.entries_before_wake ≤ cap
    pub waits : is_empty t.waiting_wakers ≡ false → 0 < t.entries_before_wake

  -- Every call keeps the tracker ready.
  pub turn-IsReady :
      (cap : ℕ) (t : WakerTracker W) (c : Turn W)
      → 0 < cap
      → IsReady cap t
      → IsReady cap (turn cap t c).0
  unfolding turn wake_ready collect
  turn-IsReady cap t c pos ready = ground arith

  idle_turn :
      (cap : ℕ) (t : WakerTracker W) (c : Turn W) → is_empty t.waiting_wakers ≡ true → Woke cap t c
  unfolding turn wake_ready collect
  idle_turn cap t c idle = ground (arith, receive_all_lem [] (t.flush_queue_receiver ++ c.sent))

  wakes_enough :
      (cap : ℕ) (t : WakerTracker W) (cs : List (Turn W))
      → 0 < cap
      → IsReady cap t
      → 2 * cap ≤ length cs
      → All Counts cs
      → length (pending t) ≤ length (turns cap t cs).1
  unfolding turns
  wakes_enough cap t [] pos ready enough counts = absurd (omega arith)
  wakes_enough cap t (c ∷ cs) pos ready enough counts =
      let sent = t.flush_queue_receiver ++ c.sent in
      let sizes = length-append t.waiting_wakers t.flush_queue_receiver in
      elim (Bool-cases (is_empty t.waiting_wakers)) [
        | inl idle ↦ elim (Bool-cases (is_empty sent)) [
          | inl none_left ↦ omega (
            arith,
            sizes,
            empty_length t.waiting_wakers idle,
            length-append t.flush_queue_receiver c.sent,
            empty_length sent none_left,
          )
          | inr more ↦
              let w = idle_turn cap t c idle in
              omega (
                arith,
                sizes,
                empty_length t.waiting_wakers idle,
                length-append t.flush_queue_receiver c.sent,
                ap length w.taken,
                length-append (turn cap t c).1 (turns cap (turn cap t c).0 cs).1,
                wakes_waiting cap (turn cap t c).0 cs (rw w.taken more)
                    (rw (w.budget more) (omega arith)) (omega arith) counts.1,
              )
        ]
        | inr busy ↦ omega (
          arith,
          sizes,
          wakes_both cap t (c ∷ cs) pos busy (ready.waits busy) (omega (arith, ready.bounded))
              counts,
        )
      ]

  -- Every request sent before the first of `2 * cap` calls that count is woken by the last of them,
  -- and requests are woken in the order in which they were sent.
  pub woken_in_order :
      (cap : ℕ) (t : WakerTracker W) (cs : List (Turn W))
      → 0 < cap
      → IsReady cap t
      → 2 * cap ≤ length cs
      → All Counts cs
      → (later : List W) × ((turns cap t cs).1 ≡ pending t ++ later)
  woken_in_order cap t cs pos ready enough counts =
      prefix_of_append (turns cap t cs).1 (pending (turns cap t cs).0) (pending t) (arrivals cs)
        (pending-turns cap t cs) (wakes_enough cap t cs pos ready enough counts)
