-- ===== src/PendingSink/Delivery.antt =====
-- What a resolved sink has been given, and what becomes of the entries when the resolver is dropped.
use metrique.Prelude.{
  ℕ, zero, suc, ◌+◌, ◌^◌, ◌<◌, ◌≡◌, ap, ◌∙◌, some, List, [], ◌∷◌, ◌++◌, append_assoc, append-nil,
  total, length, arith,
}
use metrique.ArrayQueue.{ArrayQueue}
use metrique.PendingSink.{
  Pending, new, waiting, draining, resolved, dropped, drained, resolve_step, act, run, Action,
  resolve_next,
}
use metrique.PendingSink.Inv.{Inv, writing, carried}
use metrique.PendingSink.Steps.{run-Inv}

-- What the resolver does in `resolve`, once it has waited: two steps for each entry.
abbrev pub drain_steps : {E : Type 0} → ℕ → List (Action E)
drain_steps zero = resolve_next ∷ []
drain_steps (suc n) = resolve_next ∷ resolve_next ∷ drain_steps n

module _ {E : Type 0} (array_queue : ArrayQueue E) where
  open array_queue use {Queue, contents, pop, contents-new, capacity-new, popped-pop, contents-pop}

  new-Inv :
      (f : E → ℕ) (capacity : ℕ) (s : Pending array_queue)
      → new array_queue capacity ≡ some s
      → Inv array_queue f s
  unfolding new
  new-Inv f capacity s h = ground (arith, contents-new capacity, capacity-new capacity)

  -- An entry given to `append` is forwarded, evicted or still carried by its call once the resolver
  -- has returned: then the buffer is empty, no call is about to write to it, and no entry has been
  -- dropped. `f` weighs the entries in any way, and fewer than `2 ^ 64` have been given.
  pub resolved_delivers :
      (f : E → ℕ) (capacity : ℕ) (fresh : Pending array_queue) (actions : List (Action E))
      → new array_queue capacity ≡ some fresh
      → length (run array_queue actions fresh).started < 2 ^ 64
      → (run array_queue actions fresh).resolver ≡ resolved
      → (contents (run array_queue actions fresh).buffer ≡ [])
        × (total writing (run array_queue actions fresh).appenders ≡ 0)
        × ((run array_queue actions fresh).discarded ≡ [])
        × (total f (run array_queue actions fresh).started
            ≡ total f (run array_queue actions fresh).delivered
              + total f (run array_queue actions fresh).evicted
              + total (carried f) (run array_queue actions fresh).appenders)
  resolved_delivers f capacity fresh actions made few done =
      let v = run-Inv array_queue f actions fresh (new-Inv f capacity fresh made) in ground arith

  -- When the resolver is dropped unresolved, no entry is ever forwarded: each one given to `append`
  -- is evicted, dropped, in the buffer, or carried by its call, whatever `f` weighs the entries by.
  pub dropped_delivers_nothing :
      (f : E → ℕ) (capacity : ℕ) (fresh : Pending array_queue) (actions : List (Action E))
      → new array_queue capacity ≡ some fresh
      → (run array_queue actions fresh).resolver ≡ dropped
      → ((run array_queue actions fresh).delivered ≡ [])
        × (total f (run array_queue actions fresh).started
            ≡ total f (run array_queue actions fresh).evicted
              + total f (run array_queue actions fresh).discarded
              + total f (contents (run array_queue actions fresh).buffer)
              + total (carried f) (run array_queue actions fresh).appenders)
  dropped_delivers_nothing f capacity fresh actions made done =
      let v = run-Inv array_queue f actions fresh (new-Inv f capacity fresh made) in ground arith

  twice : Pending array_queue → Pending array_queue
  twice s = act array_queue resolve_next (act array_queue resolve_next s)

  one_forwarded :
      (x : E) (xs : List E) (s : Pending array_queue)
      → s.resolver ≡ draining
      → contents s.buffer ≡ x ∷ xs
      → ((twice s).resolver ≡ draining)
        × (contents (twice s).buffer ≡ xs)
        × ((twice s).delivered ≡ s.delivered ++ x ∷ [])
  unfolding twice act resolve_step drained
  one_forwarded x xs s at is = ground (arith, popped-pop s.buffer, contents-pop s.buffer)

  drain_steps_lem :
      (xs : List E) (s : Pending array_queue)
      → s.resolver ≡ draining
      → contents s.buffer ≡ xs
      → ((run array_queue (drain_steps (length xs)) s).resolver ≡ resolved)
        × ((run array_queue (drain_steps (length xs)) s).delivered ≡ s.delivered ++ xs)
  unfolding run act resolve_step drained twice
  drain_steps_lem [] s at is =
      ground (arith, popped-pop s.buffer, contents-pop s.buffer, append-nil s.delivered)
  drain_steps_lem (x ∷ xs) s at is =
      let (at', is', more) = one_forwarded x xs s at is in
      let (done, given) = drain_steps_lem xs (twice s) at' is' in
      (done, given ∙ ap (λ ys. ys ++ xs) more ∙ append_assoc s.delivered (x ∷ []) xs)

  left_loop :
      (s : Pending array_queue)
      → s.resolver ≡ waiting
      → s.buffering ≡ 0
      → ((act array_queue resolve_next s).resolver ≡ draining)
        × ((act array_queue resolve_next s).buffer ≡ s.buffer)
        × ((act array_queue resolve_next s).delivered ≡ s.delivered)
  unfolding act resolve_step
  left_loop s at idle = ground arith

  -- Once no call counts in `buffering`, and while no call of `append` acts, `resolve` returns: it
  -- leaves its loop, and in two steps for each entry of the buffer and one more it has given them all
  -- to the sink, in their order.
  pub resolve_drains :
      (s : Pending array_queue)
      → s.resolver ≡ waiting
      → s.buffering ≡ 0
      → ((run array_queue (resolve_next ∷ drain_steps (length (contents s.buffer))) s).resolver
          ≡ resolved)
        × ((run array_queue (resolve_next ∷ drain_steps (length (contents s.buffer))) s).delivered
            ≡ s.delivered ++ contents s.buffer)
  unfolding run
  resolve_drains s at idle =
      let (waited, buffer', delivered') = left_loop s at idle in
      let (done, given) =
        drain_steps_lem (contents s.buffer) (act array_queue resolve_next s) waited
          (ap contents buffer') in
      (done, given ∙ ap (λ ys. ys ++ contents s.buffer) delivered')
