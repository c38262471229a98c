-- ===== src/Aggregation/Delivery.antt =====
-- What the worker has emitted when a flush is answered, and when it has ended.
use metrique.Prelude.{
  ◌≤◌, ◌≡◌, refl, sym, ap, ◌∙◌, Bool, true, false, List, [], ◌∷◌, ◌++◌, append-nil, append_assoc,
  length, total, All, if◌then◌else◌, arith,
}
use metrique.Aggregation.{AggregateStrategy, HashOrder}
use metrique.Aggregation.Worker
use metrique.Aggregation.Worker.{
  QueueMessage, entry, flush_request, WorkerSink, flush_inner, receive_entry, receive, worker_step,
}
use metrique.Aggregation.Worker.{Action, run}
use metrique.Aggregation.Inv.{Weight, entries_of}
use metrique.Aggregation.Steps.{reached-Inv}

module _ (strategy : AggregateStrategy) (order : HashOrder (strategy.Key × strategy.Merged)) where
  open strategy use {Source, Key, Merged}

  -- The worker after some actions, from `WorkerSink::new` on.
  abbrev pub reached : List (Action Source) → WorkerSink strategy
  reached actions = run strategy order actions (Worker.new strategy)

  -- Rounds of the loop, each with what it reads of the clock.
  unfoldable pub rounds : List Bool → WorkerSink strategy → WorkerSink strategy
  rounds [] s = s
  rounds (elapsed ∷ es) s = rounds es (worker_step strategy order elapsed s)

  -- Whatever the threads do and in whatever order, once the worker has ended, the aggregates emitted
  -- weigh as much as all the entries sent, by any weight that merging adds up.
  pub ended_worker_delivers :
      (weight : Weight strategy) (actions : List (Action Source))
      → (reached actions).running ≡ false
      → total weight.weigh (reached actions).inner.sink
        ≡ total weight.weigh_source (reached actions).sent
  ended_worker_delivers weight actions stopped =
      let v = reached-Inv strategy order weight actions in
      let s = reached actions in
      let (empty, none_kept, alone) = v.ended stopped in
      let flushed =
        v.in_order
        ∙ ap (λ ms. s.covered ++ s.kept ++ entries_of ms) empty
        ∙ append-nil (s.covered ++ s.kept)
        ∙ ap (λ es. s.covered ++ es) none_kept
        ∙ append-nil s.covered in
      v.emitted ∙ ap (total weight.weigh_source) (sym flushed)

  -- Whatever the threads do and in whatever order, a flush request is answered only after a flush
  -- of all entries sent before the request: the entries flushed are the first ones sent, at least
  -- as many as those, and the aggregates emitted weigh as much as they do, by any weight that
  -- merging adds up.
  pub answered_after_flush :
      (weight : Weight strategy) (actions : List (Action Source))
      → All (λ n. n ≤ length (reached actions).covered) (reached actions).answered
        × ((reached actions).sent
            ≡ (reached actions).covered
              ++ ((reached actions).kept ++ entries_of (reached actions).channel))
        × (total weight.weigh (reached actions).inner.sink
            ≡ total weight.weigh_source (reached actions).covered)
  answered_after_flush weight actions =
      let v = reached-Inv strategy order weight actions in
      let s = reached actions in
      (v.replied, v.in_order ∙ append_assoc s.covered s.kept (entries_of s.channel), v.emitted)

  received :
      (elapsed : Bool) (m : QueueMessage Source) (rest : List (QueueMessage Source))
      (s : WorkerSink strategy)
      → ((receive strategy order elapsed (m ∷ rest) s).senders ≡ s.senders)
        × ((receive strategy order elapsed (m ∷ rest) s).running ≡ s.running)
        × ((receive strategy order elapsed (m ∷ rest) s).channel ≡ rest)
  unfolding receive receive_entry flush_inner
  received false (entry e) rest s = (refl, refl, refl)
  received true (entry e) rest s = (refl, refl, refl)
  received elapsed (flush_request n) rest s = (refl, refl, refl)

  running_step :
      (elapsed : Bool) (s : WorkerSink strategy)
      → s.running ≡ true
      → worker_step strategy order elapsed s ≡ receive strategy order elapsed s.channel s
  unfolding worker_step
  running_step elapsed s h = ap (λ r. if r then receive strategy order elapsed s.channel s else s) h

  emptied_round :
      (elapsed : Bool) (s : WorkerSink strategy)
      → s.senders ≡ 0
      → (receive strategy order elapsed [] s).running ≡ false
  unfolding receive flush_inner
  emptied_round elapsed s alone = ground arith

  ends_from :
      (es : List Bool) (elapsed : Bool) (ms : List (QueueMessage Source)) (s : WorkerSink strategy)
      → s.running ≡ true
      → s.senders ≡ 0
      → s.channel ≡ ms
      → length es ≡ length ms
      → (rounds (es ++ elapsed ∷ []) s).running ≡ false
  unfolding rounds
  ends_from [] elapsed [] s on alone at more =
      ap (λ t. t.running)
        (running_step elapsed s on ∙ ap (λ ms. receive strategy order elapsed ms s) at)
      ∙ emptied_round elapsed s alone
  ends_from [] elapsed (m ∷ ms) s on alone at more = absurd (ground arith)
  ends_from (e ∷ es) elapsed [] s on alone at more = absurd (ground arith)
  ends_from (e ∷ es) elapsed (m ∷ ms) s on alone at more =
      let stepped = running_step e s on ∙ ap (λ xs. receive strategy order e xs s) at in
      let (alone', on', at') = received e m ms s in
      ends_from es elapsed ms (worker_step strategy order e s)
        (ap (λ t. t.running) stepped ∙ on' ∙ on) (ap (λ t. t.senders) stepped ∙ alone' ∙ alone)
        (ap (λ t. t.channel) stepped ∙ at') (omega arith)

  -- Once the last sender is dropped, a running worker ends after one round for each message in the
  -- channel and one more, whatever it reads of the clock.
  pub worker_ends :
      (es : List Bool) (elapsed : Bool) (s : WorkerSink strategy)
      → s.running ≡ true
      → s.senders ≡ 0
      → length es ≡ length s.channel
      → (rounds (es ++ elapsed ∷ []) s).running ≡ false
  worker_ends es elapsed s on alone more = ends_from es elapsed s.channel s on alone refl more
