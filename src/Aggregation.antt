-- ===== src/Aggregation.antt =====
-- metrique-aggregation/src/aggregator.rs, and the traits of metrique-aggregation/src/traits.rs that
-- it uses: entries with the same key are merged until the next flush.
pub mod Worker
pub mod Lookup
pub mod Inv
pub mod Rounds
pub mod Steps
pub mod Delivery
mod Tests
use metrique.Prelude.{ℕ, ◌≡◌, Bool, true, Option, List, [], ◌∷◌, ◌++◌, map, total, if◌then◌else◌}

-- `AggregateStrategy` with its `Key` and `Merge`. `key` makes the static key of a source; the two
-- laws are what `Key` asks of `static_key_matches`. `new_merged` has the configuration at hand.
pub record AggregateStrategy : Type 1 where
  pub Source : Type 0
  pub Key : Type 0
  pub Merged : Type 0
  pub Closed : Type 0
  pub key : Source → Key
  pub static_key_matches : Key → Key → Bool
  pub new_merged : Merged
  pub merge : Merged → Source → Merged
  pub close : Key → Merged → Closed
  pub matches_refl : (k : Key) → static_key_matches k k ≡ true
  pub matches_sound : (k l : Key) → static_key_matches k l ≡ true → k ≡ l

-- `HashMap::drain` gives each entry once, in an order of its own: every sum over them is kept.
pub record HashOrder (A : Type 0) : Type 0 where
  pub drain : List A → List A
  pub total-drain : (f : A → ℕ) (xs : List A) → total f (drain xs) ≡ total f xs

module _ (strategy : AggregateStrategy) where
  open strategy use {Source, Key, Merged, Closed, key, static_key_matches, new_merged, close}

  -- The storage is the list of its keys and values, and the sink the list of what it was given.
  pub record KeyedAggregator : Type 0 where
    pub storage : List (Key × Merged)
    pub sink : List Closed

  unfoldable pub new : KeyedAggregator
  new = record { storage = []; sink = [] }

  -- `update` is what the caller does with the accumulator that it gets.
  unfoldable pub get_or_create_accum :
      Key → (Merged → Merged) → List (Key × Merged) → List (Key × Merged)
  get_or_create_accum k update [] = (k, update new_merged) ∷ []
  get_or_create_accum k update ((l, m) ∷ storage) =
      let rest = get_or_create_accum k update storage in
      if static_key_matches l k then (l, update m) ∷ storage else (l, m) ∷ rest

  unfoldable pub merge : Source → KeyedAggregator → KeyedAggregator
  unfolding get_or_create_accum
  merge e a = record a { storage = get_or_create_accum (key e) (λ m. strategy.merge m e) a.storage }

  unfoldable pub flush : HashOrder (Key × Merged) → KeyedAggregator → KeyedAggregator
  flush order a = record {
    storage = [];
    sink = a.sink ++ map (λ (k, m). close k m) (order.drain a.storage);
  }
