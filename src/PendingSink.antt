-- ===== src/PendingSink.antt =====
-- metrique-util/src/pending_sink.rs: a sink that buffers entries until its resolver names the sink
-- to forward them to. Appends run on many threads at once, so `append` and `resolve` are cut into
-- their atomic steps; `Appender` and `Resolver` say which step comes next.
pub mod Inv
pub mod Steps
pub mod Delivery
mod Tests
use metrique.Prelude.{
  ℕ, zero, suc, ◌+◌, ◌-◌, ◌^◌, Bool, true, false, Option, none, some, List, [], ◌∷◌, ◌++◌, ◌==◌,
  get_elem?, set, if◌then◌else◌, u64, ltb,
}
use metrique.ArrayQueue.{ArrayQueue}

-- Where a call of `append` stands: before the first look at the slot of the sink, before the test of
-- `cancelled`, before `fetch_add`, before the second look, before the `fetch_sub` and the `append`
-- of an entry that is forwarded, before `force_push`, before the last `fetch_sub`, or at its end.
pub data Appender (E : Type 0) : Type 0 where
  first_look : E → Appender E
  cancel_check : E → Appender E
  entering : E → Appender E
  second_look : E → Appender E
  leaving : E → Appender E
  forwarding : E → Appender E
  buffering_entry : E → Appender E
  exiting : Appender E
  returned : Appender E

-- Where the resolver stands: held by its owner, in the loop that waits for `buffering` to fall to 0,
-- before a `pop`, before the `append` of an entry popped, at the end of `resolve`, or dropped.
pub data Resolver (E : Type 0) : Type 0 where
  held : Resolver E
  waiting : Resolver E
  draining : Resolver E
  draining_entry : E → Resolver E
  resolved : Resolver E
  dropped : Resolver E

module _ {E : Type 0} (array_queue : ArrayQueue E) where
  open array_queue use {Queue, force_push, pop}

  -- `Inner`, and the calls on it. `sink` says whether the slot is set. The last four fields record
  -- what became of the entries, and no step reads them: those given to `append`, those that the
  -- resolved sink was given, those evicted from the buffer, and those dropped after a cancellation.
  pub record Pending : Type 0 where
    pub buffer : Queue
    pub sink : Bool
    pub cancelled : Bool
    pub buffering : ℕ
    pub appenders : List (Appender E)
    pub resolver : Resolver E
    pub started : List E
    pub delivered : List E
    pub evicted : List E
    pub discarded : List E

  -- `new`; `none` is the panic of a capacity of 0.
  unfoldable pub new : ℕ → Option Pending
  new capacity =
      let fresh : Pending = record {
        buffer = array_queue.new capacity;
        sink = false;
        cancelled = false;
        buffering = 0;
        appenders = [];
        resolver = held;
        started = [];
        delivered = [];
        evicted = [];
        discarded = [];
      } in
      if ltb 0 capacity then some fresh else none

  unfoldable pub move : ℕ → Appender E → Pending → Pending
  move i a s = record s { appenders = set s.appenders i a }

  unfoldable pub keep_evicted : Option E → Pending → Pending
  keep_evicted none s = s
  keep_evicted (some old) s = record s { evicted = s.evicted ++ old ∷ [] }

  -- The next step of the call of `append` at place `i`.
  unfoldable pub append_step : ℕ → Appender E → Pending → Pending
  unfolding move keep_evicted
  append_step i (first_look e) s = move i (if s.sink then forwarding e else cancel_check e) s
  append_step i (cancel_check e) s =
      if s.cancelled
      then move i returned (record s { discarded = s.discarded ++ e ∷ [] })
      else move i (entering e) s
  append_step i (entering e) s =
      move i (second_look e) (record s { buffering = u64 (s.buffering + 1) })
  append_step i (second_look e) s = move i (if s.sink then leaving e else buffering_entry e) s
  append_step i (leaving e) s =
      move i (forwarding e) (record s { buffering = u64 (s.buffering + (2 ^ 64 - 1)) })
  append_step i (forwarding e) s = move i returned (record s { delivered = s.delivered ++ e ∷ [] })
  append_step i (buffering_entry e) s =
      let (old, buffer') = force_push s.buffer e in
      keep_evicted old (move i exiting (record s { buffer = buffer' }))
  append_step i exiting s =
      move i returned (record s { buffering = u64 (s.buffering + (2 ^ 64 - 1)) })
  append_step i returned s = s

  unfoldable pub drained : Option E → Queue → Pending → Pending
  drained none buffer' s = record s { buffer = buffer'; resolver = resolved }
  drained (some e) buffer' s = record s { buffer = buffer'; resolver = draining_entry e }

  -- The next step of `resolve`. The slot is set by no one else, so `set` succeeds.
  unfoldable pub resolve_step : Resolver E → Pending → Pending
  unfolding drained
  resolve_step held s = record s { sink = true; resolver = waiting }
  resolve_step waiting s = record s { resolver = if s.buffering == 0 then draining else waiting }
  resolve_step draining s = let (popped, buffer') = pop s.buffer in drained popped buffer' s
  resolve_step (draining_entry e) s = record s {
    delivered = s.delivered ++ e ∷ [];
    resolver = draining;
  }
  resolve_step resolved s = s
  resolve_step dropped s = s

  -- `PendingSinkResolver::drop`, which does nothing after `resolve`.
  unfoldable pub drop_step : Resolver E → Pending → Pending
  drop_step held s = record s { cancelled = true; resolver = dropped }
  drop_step _ s = s

  unfoldable pub step_at : ℕ → Option (Appender E) → Pending → Pending
  unfolding append_step
  step_at i none s = s
  step_at i (some a) s = append_step i a s

  -- What can happen next: a call of `append`, a step of one, a step of `resolve` (the first one
  -- calls it), or the drop of the resolver.
  unfoldable pub start : E → Pending → Pending
  start e s = record s {
    appenders = s.appenders ++ first_look e ∷ [];
    started = s.started ++ e ∷ [];
  }

pub data Action (E : Type 0) : Type 0 where
  call : E → Action E
  append_next : ℕ → Action E
  resolve_next : Action E
  drop_resolver : Action E

module _ {E : Type 0} (array_queue : ArrayQueue E) where
  unfoldable pub act : Action E → Pending array_queue → Pending array_queue
  unfolding start step_at resolve_step drop_step
  act (call e) s = start array_queue e s
  act (append_next i) s = step_at array_queue i (get_elem? s.appenders i) s
  act resolve_next s = resolve_step array_queue s.resolver s
  act drop_resolver s = drop_step array_queue s.resolver s

  unfoldable pub run : List (Action E) → Pending array_queue → Pending array_queue
  run [] s = s
  run (a ∷ actions) s = run actions (act a s)
