-- ===== src/Aggregation/Inv.antt =====
-- What holds of the worker and its aggregator between two steps, for a weight of the entries that
-- merging adds up.
use metrique.Prelude.{
  ℕ, suc, ◌+◌, ◌≤◌, ◌≡◌, refl, sym, ap, ◌∙◌, false, List, [], ◌∷◌, ◌++◌, append_assoc, length,
  total, All, arith,
}
use metrique.Aggregation.{AggregateStrategy, HashOrder}
use metrique.Aggregation.Worker.{QueueMessage, entry, flush_request, WorkerSink}

module _ {E : Type 0} where
  -- The entries among the messages.
  abbrev pub entries_of : List (QueueMessage E) → List E
  entries_of [] = []
  entries_of (entry e ∷ ms) = e ∷ entries_of ms
  entries_of (flush_request n ∷ ms) = entries_of ms

  pub entries_of-append :
      (ms ns : List (QueueMessage E)) → entries_of (ms ++ ns) ≡ entries_of ms ++ entries_of ns
  entries_of-append [] ns = refl
  entries_of-append (entry e ∷ ms) ns = ap (λ es. e ∷ es) (entries_of-append ms ns)
  entries_of-append (flush_request n ∷ ms) ns = entries_of-append ms ns

  -- Each request stands behind all entries sent before it, of which `n` have left the channel.
  abbrev pub InTurn : ℕ → List (QueueMessage E) → Type 0
  InTurn n [] = Unit
  InTurn n (entry e ∷ ms) = InTurn (suc n) ms
  InTurn n (flush_request m ∷ ms) = (m ≤ n) × InTurn n ms

  pub InTurn-cast : (m n : ℕ) (ms : List (QueueMessage E)) → m ≡ n → InTurn m ms → InTurn n ms
  InTurn-cast m n ms e h = rw (sym e) h

  pub InTurn-swap : (n : ℕ) (ms ns : List (QueueMessage E)) → ms ≡ ns → InTurn n ms → InTurn n ns
  InTurn-swap n ms ns e h = rw (sym e) h

  pub moved_over : (c k : List E) (e : E) (r : List E) → c ++ k ++ (e ∷ r) ≡ c ++ (k ++ e ∷ []) ++ r
  moved_over c k e r =
      sym (append_assoc (c ++ k) (e ∷ []) r) ∙ ap (λ xs. xs ++ r) (append_assoc c k (e ∷ []))

  pub InTurn-append :
      (n : ℕ) (ms ns : List (QueueMessage E))
      → InTurn n ms
      → InTurn (n + length (entries_of ms)) ns
      → InTurn n (ms ++ ns)
  InTurn-append n [] ns h k = InTurn-cast (n + 0) n ns (omega arith) k
  InTurn-append n (entry e ∷ ms) ns h k = InTurn-append (suc n) ms ns h (
      InTurn-cast (n + suc (length (entries_of ms))) (suc n + length (entries_of ms)) ns
        (omega arith) k)
  InTurn-append n (flush_request m ∷ ms) ns h k = (h.0, InTurn-append n ms ns h.1 k)

-- A weight of what is emitted and of the sources that merging adds up, as a count or a sum is.
pub record Weight (strategy : AggregateStrategy) : Type 0 where
  pub weigh : strategy.Closed → ℕ
  pub weigh_source : strategy.Source → ℕ
  pub new_weight : (k : strategy.Key) → weigh (strategy.close k strategy.new_merged) ≡ 0
  pub merge_weight :
      (k : strategy.Key) (m : strategy.Merged) (e : strategy.Source)
      → weigh (strategy.close k (strategy.merge m e)) ≡ weigh (strategy.close k m) + weigh_source e

module _ (strategy : AggregateStrategy) (order : HashOrder (strategy.Key × strategy.Merged))
    (weight : Weight strategy) where
  open strategy use {Source, Key, Merged, Closed, key, close, static_key_matches, new_merged}
  open weight use {weigh, weigh_source, new_weight, merge_weight}

  abbrev pub held_weight : Key × Merged → ℕ
  held_weight (k, m) = weigh (close k m)

  pub record Inv (s : WorkerSink strategy) : Type 0 where
    pub emitted : total weigh s.inner.sink ≡ total weigh_source s.covered
    pub stored : total held_weight s.inner.storage ≡ total weigh_source s.kept
    -- The entries sent, in order, are those flushed, those merged since, and those in the channel.
    pub in_order : s.sent ≡ s.covered ++ s.kept ++ entries_of s.channel
    pub in_turn : InTurn (length s.covered + length s.kept) s.channel
    pub replied : All (λ n. n ≤ length s.covered) s.answered
    pub ended : s.running ≡ false → (s.channel ≡ []) × (s.kept ≡ []) × (s.senders ≡ 0)
