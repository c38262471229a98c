-- ===== src/Aggregation/Steps.antt =====
-- Every call of those who hold a sender keeps the invariant, and so does every sequence of actions.
use metrique.Prelude.{
  ℕ, ◌+◌, ◌-◌, ◌≡◌, sym, ap, ◌∙◌, false, List, [], ◌∷◌, ◌++◌, ◌==◌, append-nil, append_assoc,
  length, length-append, if◌then◌else◌, arith, Bool-cases, inl, inr,
}
use metrique.Aggregation.{AggregateStrategy, HashOrder}
use metrique.Aggregation.Worker
use metrique.Aggregation.Worker.{
  QueueMessage, entry, flush_request, WorkerSink, send, request_flush, flush_inner, receive_entry,
  receive, worker_step, Action, step, send_entry, ask_flush, clone_sender, drop_sender, act, run,
}
use metrique.Aggregation.Inv.{entries_of, entries_of-append, InTurn-append, Weight, Inv}
use metrique.Aggregation.Rounds.{new-Inv, worker_step-Inv}

module _ (strategy : AggregateStrategy) (order : HashOrder (strategy.Key × strategy.Merged))
    (weight : Weight strategy) where
  open strategy use {Source, Key, Merged, Closed, key, close, static_key_matches, new_merged}
  open weight use {weigh, weigh_source, new_weight, merge_weight}

  abbrev IsInv : WorkerSink strategy → Type 0
  IsInv s = Inv strategy order weight s

  send-Inv :
      (e : Source) (s : WorkerSink strategy)
      → (s.senders == 0) ≡ false
      → IsInv s
      → IsInv (send strategy e s)
  unfolding send
  send-Inv e s some_sender v = record {
    emitted = v.emitted;
    stored = v.stored;
    in_order =
        ap (λ xs. xs ++ e ∷ []) v.in_order
        ∙ append_assoc (s.covered ++ s.kept) (entries_of s.channel) (e ∷ [])
        ∙ ap (λ es. s.covered ++ s.kept ++ es) (sym (entries_of-append s.channel (entry e ∷ [])));
    in_turn =
        InTurn-append (length s.covered + length s.kept) s.channel (entry e ∷ []) v.in_turn tt;
    replied = v.replied;
    ended = λ h. ground arith;
  }

  request_flush-Inv :
      (s : WorkerSink strategy)
      → (s.senders == 0) ≡ false
      → IsInv s
      → IsInv (request_flush strategy s)
  unfolding request_flush
  request_flush-Inv s some_sender v = record {
    emitted = v.emitted;
    stored = v.stored;
    in_order =
        v.in_order
        ∙ ap (λ es. s.covered ++ s.kept ++ es)
            (sym (append-nil (entries_of s.channel))
              ∙ sym (entries_of-append s.channel (flush_request (length s.sent) ∷ [])));
    in_turn =
        InTurn-append (length s.covered + length s.kept) s.channel
          (flush_request (length s.sent) ∷ []) v.in_turn
          (
            omega (
              arith,
              ap length v.in_order,
              length-append (s.covered ++ s.kept) (entries_of s.channel),
              length-append s.covered s.kept,
            ),
            tt,
          );
    replied = v.replied;
    ended = λ h. ground arith;
  }

  senders-Inv :
      (n : ℕ) (s : WorkerSink strategy)
      → (s.senders ≡ 0 → n ≡ 0)
      → IsInv s
      → IsInv (record s { senders = n })
  senders-Inv n s h v = record {
    emitted = v.emitted;
    stored = v.stored;
    in_order = v.in_order;
    in_turn = v.in_turn;
    replied = v.replied;
    ended = λ e. ground arith;
  }

  -- A call is made only by who holds a sender.
  guarded-Inv :
      (s t : WorkerSink strategy)
      → IsInv s
      → ((s.senders == 0) ≡ false → IsInv t)
      → IsInv (if s.senders == 0 then s else t)
  guarded-Inv s t v then_t = elim (Bool-cases (s.senders == 0)) [
    | inl alone ↦ rw alone v
    | inr others ↦ rw others (then_t others)
  ]

  act-Inv : (a : Action Source) (s : WorkerSink strategy) → IsInv s → IsInv (act strategy order a s)
  unfolding act
  act-Inv (step elapsed) s v = worker_step-Inv strategy order weight elapsed s v
  act-Inv (send_entry e) s v = guarded-Inv s (send strategy e s) v (λ h. send-Inv e s h v)
  act-Inv ask_flush s v = guarded-Inv s (request_flush strategy s) v (λ h. request_flush-Inv s h v)
  act-Inv clone_sender s v =
      guarded-Inv s (record s { senders = s.senders + 1 }) v
        (λ h. senders-Inv (s.senders + 1) s (λ none_left. ground arith) v)
  act-Inv drop_sender s v = senders-Inv (s.senders - 1) s (λ h. omega arith) v

  pub run-Inv :
      (actions : List (Action Source)) (s : WorkerSink strategy)
      → IsInv s
      → IsInv (run strategy order actions s)
  unfolding run
  run-Inv [] s v = v
  run-Inv (a ∷ actions) s v = run-Inv actions (act strategy order a s) (act-Inv a s v)

  pub reached-Inv :
      (actions : List (Action Source)) → IsInv (run strategy order actions (Worker.new strategy))
  reached-Inv actions = run-Inv actions (Worker.new strategy) (new-Inv strategy order weight)
