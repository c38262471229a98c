-- ===== src/PendingSink/Tests.antt =====
-- Runs of the pending sink over the shuttle queue.
use metrique.Prelude.{
  ℕ, ◌+◌, ◌≡◌, refl, false, some, List, [], ◌∷◌, ◌++◌, total, length, arith, replicate,
}
use metrique.ArrayQueue.Shuttle.{shuttle_queue, force_push, pop, len}
use metrique.PendingSink.{
  Pending, new, held, resolved, waiting, dropped, act, run, Action, call, append_next, resolve_next,
  drop_resolver,
}
use metrique.PendingSink.Inv.{writing, carried}
use metrique.PendingSink.Delivery.{
  resolved_delivers, dropped_delivers_nothing, resolve_drains, drain_steps,
}

abbrev fresh : Pending (shuttle_queue ℕ)
fresh = record {
  buffer = record { cap = 2; inner = [] };
  sink = false;
  cancelled = false;
  buffering = 0;
  appenders = [];
  resolver = held;
  started = [];
  delivered = [];
  evicted = [];
  discarded = [];
}

-- A whole call of `append`, the `i`-th, that finds the sink pending.
abbrev appended : ℕ → ℕ → List (Action ℕ)
appended i e = call e ∷ replicate 6 (append_next i)

-- Three entries into a buffer of two; a fourth whose call is overtaken by `resolve`; the resolver.
abbrev story : List (Action ℕ)
story =
    appended 0 1
    ++ appended 1 2
    ++ appended 2 3
    ++ call 4
      ∷ append_next 3
      ∷ append_next 3
      ∷ append_next 3
      ∷ resolve_next
      ∷ resolve_next
      ∷ replicate 3 (append_next 3)
    ++ replicate 6 resolve_next

abbrev told : Pending (shuttle_queue ℕ)
told = run (shuttle_queue ℕ) story fresh

story_delivered : told.delivered ≡ 4 ∷ 2 ∷ 3 ∷ []
unfolding run act force_push pop len
story_delivered = refl

told_resolved : told.resolver ≡ resolved
unfolding run act force_push pop len
told_resolved = refl

told_started : told.started ≡ 1 ∷ 2 ∷ 3 ∷ 4 ∷ []
unfolding run act force_push pop len
told_started = refl

made : new (shuttle_queue ℕ) 2 ≡ some fresh
unfolding new
made = refl

resolved_delivers_example :
    (told.buffer.inner ≡ [])
    × (total writing told.appenders ≡ 0)
    × (told.discarded ≡ [])
    × (total (λ e. e) told.started
        ≡ total (λ e. e) told.delivered
          + total (λ e. e) told.evicted
          + total (carried (λ e. e)) told.appenders)
resolved_delivers_example =
    resolved_delivers (shuttle_queue ℕ) (λ e. e) 2 fresh story made (rw told_started (omega arith))
      told_resolved

-- One entry buffered, then the resolver dropped, then an entry dropped.
abbrev dropping : List (Action ℕ)
dropping = appended 0 1 ++ drop_resolver ∷ appended 1 2

abbrev after_drop : Pending (shuttle_queue ℕ)
after_drop = run (shuttle_queue ℕ) dropping fresh

after_drop_discarded : after_drop.discarded ≡ 2 ∷ []
unfolding run act force_push pop len
after_drop_discarded = refl

after_drop_dropped : after_drop.resolver ≡ dropped
unfolding run act force_push pop len
after_drop_dropped = refl

dropped_delivers_nothing_example :
    (after_drop.delivered ≡ [])
    × (total (λ e. e) after_drop.started
        ≡ total (λ e. e) after_drop.evicted
          + total (λ e. e) after_drop.discarded
          + total (λ e. e) after_drop.buffer.inner
          + total (carried (λ e. e)) after_drop.appenders)
dropped_delivers_nothing_example =
    dropped_delivers_nothing (shuttle_queue ℕ) (λ e. e) 2 fresh dropping made after_drop_dropped

-- Two entries buffered, and the resolver in its loop.
abbrev resolving : Pending (shuttle_queue ℕ)
resolving = run (shuttle_queue ℕ) (appended 0 1 ++ appended 1 2 ++ resolve_next ∷ []) fresh

resolving_waiting : resolving.resolver ≡ waiting
unfolding run act force_push pop len
resolving_waiting = refl

resolving_idle : resolving.buffering ≡ 0
unfolding run act force_push pop len
resolving_idle = refl

resolve_drains_example :
    ((run
        (shuttle_queue ℕ)
        (resolve_next ∷ drain_steps (length resolving.buffer.inner))
        resolving).resolver
      ≡ resolved)
    × ((run
          (shuttle_queue ℕ)
          (resolve_next ∷ drain_steps (length resolving.buffer.inner))
          resolving).delivered
        ≡ resolving.delivered ++ resolving.buffer.inner)
resolve_drains_example = resolve_drains (shuttle_queue ℕ) resolving resolving_waiting resolving_idle
