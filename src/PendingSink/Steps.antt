-- ===== src/PendingSink/Steps.antt =====
-- Every step of an append, of the resolver and of its drop keeps the invariant.
use mathlib.Core.List.{tail}
use metrique.Prelude.{
  ℕ, ◌+◌, ◌^◌, ◌<◌, ◌≡◌, refl, sym, ◌∙◌, Option, none, some, List, [], ◌∷◌, get_elem?, total,
  total-append, length, length-append, front, if◌then◌else◌, arith,
}
use metrique.ArrayQueue.{ArrayQueue}
use metrique.PendingSink.{
  Appender, first_look, cancel_check, entering, second_look, leaving, forwarding, buffering_entry,
  exiting, returned, Resolver, held, waiting, draining, draining_entry, resolved, dropped, Pending,
  append_step, resolve_step, drop_step, keep_evicted, move, drained, start, step_at, act, run,
  Action, call, append_next, resolve_next, drop_resolver,
}
use metrique.PendingSink.Inv.{
  moved, Inv, inside, writing, passing, carried, writing_le, inside_le, weight, pop_weight,
  push_weight,
}

module _ {E : Type 0} (array_queue : ArrayQueue E) (f : E → ℕ) where
  open array_queue use {
    Queue, capacity, contents, force_push, pop, evicted-force_push, contents-force_push,
    capacity-force_push, popped-pop, contents-pop, capacity-pop,
  }

  abbrev IsInv : Pending array_queue → Type 0
  IsInv s = Inv array_queue f s

  buffered :
      (i : ℕ) (e : E) (s : Pending array_queue) (old : Option E) (buffer' : Queue)
      → get_elem? s.appenders i ≡ some (buffering_entry e)
      → weight array_queue f old + total f (contents buffer') ≡ total f (contents s.buffer) + f e
      → 0 < capacity buffer'
      → IsInv s
      → IsInv (
          keep_evicted array_queue old (move array_queue i exiting (record s { buffer = buffer' })))
  unfolding weight keep_evicted move
  buffered i e s none buffer' h w room v =
      ground (arith, moved f s.appenders i (buffering_entry e) exiting h)
  buffered i e s (some old) buffer' h w room v = ground (
    arith,
    total-append f s.evicted (old ∷ []),
    moved f s.appenders i (buffering_entry e) exiting h,
  )

  append_step-Inv :
      (i : ℕ) (a : Appender E) (s : Pending array_queue)
      → get_elem? s.appenders i ≡ some a
      → IsInv s
      → IsInv (append_step array_queue i a s)
  unfolding append_step
  append_step-Inv i (first_look e) s h v =
      let a' : Appender E = if s.sink then forwarding e else cancel_check e in
      ground (arith, moved f s.appenders i (first_look e) a' h)
  append_step-Inv i (cancel_check e) s h v =
      let a' : Appender E = if s.cancelled then returned else entering e in
      ground
        (arith, moved f s.appenders i (cancel_check e) a' h, total-append f s.discarded (e ∷ []))
  append_step-Inv i (entering e) s h v =
      ground (arith, moved f s.appenders i (entering e) (second_look e) h)
  append_step-Inv i (second_look e) s h v =
      let a' : Appender E = if s.sink then leaving e else buffering_entry e in
      ground (arith, moved f s.appenders i (second_look e) a' h)
  append_step-Inv i (leaving e) s h v =
      ground (arith, moved f s.appenders i (leaving e) (forwarding e) h)
  append_step-Inv i (forwarding e) s h v =
      ground (
        arith,
        moved f s.appenders i (forwarding e) returned h,
        total-append f s.delivered (e ∷ []),
      )
  append_step-Inv i (buffering_entry e) s h v =
      buffered i e s (force_push s.buffer e).0 (force_push s.buffer e).1 h
        (push_weight array_queue f s.buffer e v.room) (rw (capacity-force_push s.buffer e) v.room) v
  append_step-Inv i exiting s h v = ground (arith, moved f s.appenders i exiting returned h)
  append_step-Inv i returned s h v = v

  drained-Inv :
      (s : Pending array_queue) (old : Option E) (buffer' : Queue)
      → s.resolver ≡ draining
      → total f (contents s.buffer) ≡ weight array_queue f old + total f (contents buffer')
      → (old ≡ none → contents buffer' ≡ [])
      → 0 < capacity buffer'
      → IsInv s
      → IsInv (drained array_queue old buffer' s)
  unfolding weight drained
  drained-Inv s none buffer' at w empty room v = ground arith
  drained-Inv s (some old) buffer' at w empty room v = ground arith

  nothing_left : (xs : List E) → front xs ≡ none → tail xs ≡ []
  nothing_left [] h = refl
  nothing_left (x ∷ xs) h = ground arith

  no_writers :
      (s : Pending array_queue)
      → length s.started < 2 ^ 64
      → s.buffering ≡ 0
      → IsInv s
      → total writing s.appenders ≡ 0
  no_writers s few zero_inside v =
      omega (arith, writing_le s.appenders, inside_le s.appenders, v.counted, v.calls_length)

  resolve_step-Inv :
      (at : Resolver E) (s : Pending array_queue)
      → s.resolver ≡ at
      → IsInv s
      → IsInv (resolve_step array_queue at s)
  unfolding resolve_step
  resolve_step-Inv held s at v = ground arith
  resolve_step-Inv waiting s at v = ground (arith, no_writers s)
  resolve_step-Inv draining s at v =
      drained-Inv s (pop s.buffer).0 (pop s.buffer).1 at (pop_weight array_queue f s.buffer)
        (λ out.
          contents-pop s.buffer
          ∙ nothing_left (contents s.buffer) (sym (popped-pop s.buffer) ∙ out))
        (rw (capacity-pop s.buffer) v.room) v
  resolve_step-Inv (draining_entry e) s at v = ground (arith, total-append f s.delivered (e ∷ []))
  resolve_step-Inv resolved s at v = v
  resolve_step-Inv dropped s at v = v

  drop_step-Inv :
      (at : Resolver E) (s : Pending array_queue)
      → s.resolver ≡ at
      → IsInv s
      → IsInv (drop_step array_queue at s)
  unfolding drop_step
  drop_step-Inv held s at v = ground arith
  drop_step-Inv waiting s at v = v
  drop_step-Inv draining s at v = v
  drop_step-Inv (draining_entry e) s at v = v
  drop_step-Inv resolved s at v = v
  drop_step-Inv dropped s at v = v

  start-Inv : (e : E) (s : Pending array_queue) → IsInv s → IsInv (start array_queue e s)
  unfolding start
  start-Inv e s v = ground (
    arith,
    total-append f s.started (e ∷ []),
    total-append (carried f) s.appenders (first_look e ∷ []),
    total-append inside s.appenders (first_look e ∷ []),
    total-append writing s.appenders (first_look e ∷ []),
    total-append passing s.appenders (first_look e ∷ []),
    length-append s.started (e ∷ []),
    length-append s.appenders (first_look e ∷ []),
  )

  step_at-Inv :
      (i : ℕ) (a : Option (Appender E)) (s : Pending array_queue)
      → get_elem? s.appenders i ≡ a
      → IsInv s
      → IsInv (step_at array_queue i a s)
  unfolding step_at
  step_at-Inv i none s h v = v
  step_at-Inv i (some a) s h v = append_step-Inv i a s h v

  act-Inv : (a : Action E) (s : Pending array_queue) → IsInv s → IsInv (act array_queue a s)
  unfolding act
  act-Inv (call e) s v = start-Inv e s v
  act-Inv (append_next i) s v = step_at-Inv i (get_elem? s.appenders i) s refl v
  act-Inv resolve_next s v = resolve_step-Inv s.resolver s refl v
  act-Inv drop_resolver s v = drop_step-Inv s.resolver s refl v

  pub run-Inv :
      (actions : List (Action E)) (s : Pending array_queue)
      → IsInv s
      → IsInv (run array_queue actions s)
  unfolding run
  run-Inv [] s v = v
  run-Inv (a ∷ actions) s v = run-Inv actions (act array_queue a s) (act-Inv a s v)
