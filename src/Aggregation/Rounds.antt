-- ===== src/Aggregation/Rounds.antt =====
-- Every round of the worker's loop keeps the invariant.
use metrique.Prelude.{
  ℕ, suc, ◌+◌, ◌≤◌, ◌≡◌, refl, sym, ap, ◌∙◌, Bool, true, false, List, [], ◌∷◌, ◌++◌, ◌==◌, map,
  append-nil, length, length-append, total, total-append, All-append, All-imp, if◌then◌else◌, arith,
  Bool-cases, inl, inr,
}
use metrique.Aggregation
use metrique.Aggregation.{
  AggregateStrategy, HashOrder, KeyedAggregator, get_or_create_accum, merge, flush,
}
use metrique.Aggregation.Worker
use metrique.Aggregation.Worker.{
  QueueMessage, entry, flush_request, WorkerSink, send, request_flush, flush_inner, receive_entry,
  receive, worker_step, Action, step, send_entry, ask_flush, clone_sender, drop_sender, act, run,
}
use metrique.Aggregation.Inv.{
  entries_of, InTurn-cast, InTurn-swap, moved_over, Weight, Inv, held_weight,
}

module _ (strategy : AggregateStrategy) (order : HashOrder (strategy.Key × strategy.Merged))
    (weight : Weight strategy) where
  open strategy use {Source, Key, Merged, Closed, key, close, static_key_matches, new_merged}
  open weight use {weigh, weigh_source, new_weight, merge_weight}

  abbrev IsInv : WorkerSink strategy → Type 0
  IsInv s = Inv strategy order weight s

  accum_weight :
      (k : Key) (e : Source) (storage : List (Key × Merged))
      → total
          (held_weight strategy order weight)
          (get_or_create_accum strategy k (λ m. strategy.merge m e) storage)
        ≡ total (held_weight strategy order weight) storage + weigh_source e
  unfolding get_or_create_accum
  accum_weight k e [] = omega (arith, new_weight k, merge_weight k new_merged e)
  accum_weight k e ((l, m) ∷ storage) = ground (arith, accum_weight k e storage, merge_weight l m e)

  closed_weight :
      (xs : List (Key × Merged))
      → total weigh (map (λ (k, m). close k m) xs) ≡ total (held_weight strategy order weight) xs
  closed_weight [] = refl
  closed_weight ((k, m) ∷ xs) = omega (arith, closed_weight xs)

  pub new-Inv : IsInv (Worker.new strategy)
  unfolding Worker.new Aggregation.new
  new-Inv = record {
    emitted = refl;
    stored = refl;
    in_order = refl;
    in_turn = tt;
    replied = tt;
    ended = λ h. ground arith;
  }

  flush_inner-Inv : (s : WorkerSink strategy) → IsInv s → IsInv (flush_inner strategy order s)
  unfolding flush_inner flush
  flush_inner-Inv s v = record {
    emitted = omega (
      arith,
      total-append weigh s.inner.sink (map (λ (k, m). close k m) (order.drain s.inner.storage)),
      closed_weight (order.drain s.inner.storage),
      order.total-drain (held_weight strategy order weight) s.inner.storage,
      total-append weigh_source s.covered s.kept,
      v.emitted,
      v.stored,
    );
    stored = refl;
    in_order =
        v.in_order ∙ ap (λ xs. xs ++ entries_of s.channel) (sym (append-nil (s.covered ++ s.kept)));
    in_turn =
        InTurn-cast (length s.covered + length s.kept) (length (s.covered ++ s.kept) + 0) s.channel
          (omega (arith, length-append s.covered s.kept)) v.in_turn;
    replied =
        All-imp (λ n. n ≤ length s.covered) (λ n. n ≤ length (s.covered ++ s.kept)) s.answered
          (λ n h. omega (arith, length-append s.covered s.kept)) v.replied;
    ended = λ h. ground arith;
  }

  merged-Inv :
      (s : WorkerSink strategy) (e : Source) (rest : List (QueueMessage Source))
      → s.channel ≡ entry e ∷ rest
      → IsInv s
      → IsInv
          (record s { channel = rest; inner = merge strategy e s.inner; kept = s.kept ++ e ∷ [] })
  unfolding merge
  merged-Inv s e rest at v = record {
    emitted = v.emitted;
    stored =
        ground (
          arith,
          accum_weight (key e) e s.inner.storage,
          total-append weigh_source s.kept (e ∷ []),
        );
    in_order =
        v.in_order
        ∙ ap (λ ms. s.covered ++ s.kept ++ entries_of ms) at
        ∙ moved_over s.covered s.kept e (entries_of rest);
    in_turn =
        InTurn-cast (suc (length s.covered + length s.kept))
          (length s.covered + length (s.kept ++ e ∷ [])) rest
          (omega (arith, length-append s.kept (e ∷ [])))
          (InTurn-swap (length s.covered + length s.kept) s.channel (entry e ∷ rest) at v.in_turn);
    replied = v.replied;
    ended = λ h. ground arith;
  }

  skipped-Inv :
      (s : WorkerSink strategy) (n : ℕ) (rest : List (QueueMessage Source))
      → s.channel ≡ flush_request n ∷ rest
      → IsInv s
      → IsInv (record s { channel = rest }) × (n ≤ length s.covered + length s.kept)
  skipped-Inv s n rest at v =
      let turn =
        InTurn-swap (length s.covered + length s.kept) s.channel (flush_request n ∷ rest) at
          v.in_turn in
      (
        record {
          emitted = v.emitted;
          stored = v.stored;
          in_order = v.in_order ∙ ap (λ ms. s.covered ++ s.kept ++ entries_of ms) at;
          in_turn = turn.1;
          replied = v.replied;
          ended = λ h. ground arith;
        },
        turn.0,
      )

  replied-Inv :
      (s : WorkerSink strategy) (n : ℕ)
      → n ≤ length s.covered
      → IsInv s
      → IsInv (record s { answered = s.answered ++ n ∷ [] })
  replied-Inv s n h v = record {
    emitted = v.emitted;
    stored = v.stored;
    in_order = v.in_order;
    in_turn = v.in_turn;
    replied = All-append (λ m. m ≤ length s.covered) s.answered (n ∷ []) v.replied (h, tt);
    ended = v.ended;
  }

  stopped-Inv :
      (s : WorkerSink strategy)
      → s.channel ≡ []
      → s.kept ≡ []
      → s.senders ≡ 0
      → IsInv s
      → IsInv (record s { running = false })
  stopped-Inv s none_left none_kept alone v = record {
    emitted = v.emitted;
    stored = v.stored;
    in_order = v.in_order;
    in_turn = v.in_turn;
    replied = v.replied;
    ended = λ h. (none_left, none_kept, alone);
  }

  receive_entry-Inv :
      (elapsed : Bool) (e : Source) (rest : List (QueueMessage Source)) (s : WorkerSink strategy)
      → s.channel ≡ entry e ∷ rest
      → IsInv s
      → IsInv (receive_entry strategy order elapsed e (record s { channel = rest }))
  unfolding receive_entry
  receive_entry-Inv false e rest s at v = merged-Inv s e rest at v
  receive_entry-Inv true e rest s at v = flush_inner-Inv _ (merged-Inv s e rest at v)

  receive-Inv :
      (elapsed : Bool) (ms : List (QueueMessage Source)) (s : WorkerSink strategy)
      → s.channel ≡ ms
      → IsInv s
      → IsInv (receive strategy order elapsed ms s)
  unfolding receive flush_inner
  receive-Inv elapsed [] s at v = elim (Bool-cases (s.senders == 0)) [
    | inl alone ↦
        rw alone
          (stopped-Inv (flush_inner strategy order s) at refl (ground arith) (flush_inner-Inv s v))
    | inr others ↦ rw others (flush_inner-Inv s v)
  ]
  receive-Inv elapsed (entry e ∷ rest) s at v = receive_entry-Inv elapsed e rest s at v
  receive-Inv elapsed (flush_request n ∷ rest) s at v =
      let (w, h) = skipped-Inv s n rest at v in
      replied-Inv _ n (omega (arith, length-append s.covered s.kept))
        (flush_inner-Inv (record s { channel = rest }) w)

  pub worker_step-Inv :
      (elapsed : Bool) (s : WorkerSink strategy)
      → IsInv s
      → IsInv (worker_step strategy order elapsed s)
  unfolding worker_step
  worker_step-Inv elapsed s v =
      elim s.running as (λ r. IsInv (if r then receive strategy order elapsed s.channel s else s)) [
        | true ↦ receive-Inv elapsed s.channel s refl v
        | false ↦ v
      ]
