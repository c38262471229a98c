-- ===== src/Background/Waker/Order.antt =====
-- A sequence of calls of `handle_waiting_wakers`, with the flush requests that arrive between them:
-- every request is woken once, in the order of arrival.
use metrique.Prelude.{ℕ, ◌≡◌, sym, ap, ◌∙◌, List, [], ◌∷◌, ◌++◌, append-nil, append_assoc, arith}
use metrique.Background.Waker.{
  DrainResult, WakerTracker, receive_all, collect, wake_ready, handle_waiting_wakers,
}

-- One turn of the thread: the signals that arrive before it, then the call's arguments.
pub record Turn (W : Type 0) : Type 0 where
  pub sent : List W
  pub status : DrainResult
  pub entry_count : ℕ

module _ {W : Type 0} where
  -- All signals that the tracker holds, oldest first.
  abbrev pub pending : WakerTracker W → List W
  pending t = t.waiting_wakers ++ t.flush_queue_receiver

  abbrev pub send : WakerTracker W → List W → WakerTracker W
  send t ws = record t { flush_queue_receiver = t.flush_queue_receiver ++ ws }

  unfoldable pub turn : ℕ → WakerTracker W → Turn W → WakerTracker W × List W
  unfolding handle_waiting_wakers
  turn cap t c =
      let (t', woken, r) =
        handle_waiting_wakers {R = Unit {0}} cap (λ r. r) c.status c.entry_count (send t c.sent)
          tt in
      (t', woken)

  unfoldable pub turns : ℕ → WakerTracker W → List (Turn W) → WakerTracker W × List W
  turns cap t [] = (t, [])
  turns cap t (c ∷ cs) =
      let (t', woken) = turn cap t c in
      let (t'', woken') = turns cap t' cs in (t'', woken ++ woken')

  abbrev pub arrivals : List (Turn W) → List W
  arrivals [] = []
  arrivals (c ∷ cs) = c.sent ++ arrivals cs

  pub receive_all_lem : (ws vs : List W) → receive_all ws vs ≡ ws ++ vs
  unfolding receive_all
  receive_all_lem ws [] = sym (append-nil ws)
  receive_all_lem ws (v ∷ vs) = receive_all_lem (ws ++ v ∷ []) vs ∙ append_assoc ws (v ∷ []) vs

  pub pending-collect : (cap : ℕ) (t : WakerTracker W) → pending (collect cap t) ≡ pending t
  unfolding collect
  pending-collect cap t =
      ground (arith, receive_all_lem [] t.flush_queue_receiver, append-nil t.flush_queue_receiver)

  -- What a call wakes, with what the tracker then holds, is what it held before.
  pub pending-wake_ready {ℓ} :
      {R : Type ℓ} (f : R → R) (s : DrainResult) (n : ℕ) (t : WakerTracker W) (r : R)
      → (wake_ready f s n t r).1 ++ pending (wake_ready f s n t r).0 ≡ pending t
  unfolding wake_ready
  pending-wake_ready f s n t r = ground arith

  pub pending-turn :
      (cap : ℕ) (t : WakerTracker W) (c : Turn W)
      → (turn cap t c).1 ++ pending (turn cap t c).0 ≡ pending t ++ c.sent
  unfolding turn
  pending-turn cap t c = rw pending-collect (
      pending-wake_ready {R = Unit {0}} (λ r. r) c.status c.entry_count (send t c.sent) tt
      ∙ sym (append_assoc t.waiting_wakers t.flush_queue_receiver c.sent))

  -- Every signal is woken or still held, once, and in the order of arrival.
  pub pending-turns :
      (cap : ℕ) (t : WakerTracker W) (cs : List (Turn W))
      → (turns cap t cs).1 ++ pending (turns cap t cs).0 ≡ pending t ++ arrivals cs
  unfolding turns
  pending-turns cap t [] = sym (append-nil (pending t))
  pending-turns cap t (c ∷ cs) =
      let t' = (turn cap t c).0 in
      let woken = (turn cap t c).1 in
      append_assoc woken (turns cap t' cs).1 (pending (turns cap t' cs).0)
      ∙ ap (λ ws. woken ++ ws) (pending-turns cap t' cs)
      ∙ sym (append_assoc woken (pending t') (arrivals cs))
      ∙ ap (λ ws. ws ++ arrivals cs) (pending-turn cap t c)
      ∙ append_assoc (pending t) c.sent (arrivals cs)
