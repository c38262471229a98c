-- ===== src/Aggregation/Lookup.antt =====
-- The aggregator against a fold over the entries of each key.
use mathlib.Core.Bool.{true≢false}
use metrique.Prelude.{
  ◌==◌, ℕ, ◌≤◌, ◌≡◌, refl, sym, ap, ◌∙◌, true, false, Option, none, some, List, [], ◌∷◌, total,
  if◌then◌else◌, arith, Bool-cases, inl, inr,
}
use metrique.Aggregation
use metrique.Aggregation.{AggregateStrategy, HashOrder, KeyedAggregator, get_or_create_accum, merge}

module _ (strategy : AggregateStrategy) where
  open strategy use {
    Source, Key, Merged, key, static_key_matches, new_merged, matches_refl, matches_sound,
  }

  -- What the storage holds under a key, and under how many of its entries.
  abbrev pub find : Key → List (Key × Merged) → Option Merged
  find k [] = none
  find k ((l, m) ∷ storage) = if static_key_matches l k then some m else find k storage

  abbrev pub is_at : Key → Key × Merged → ℕ
  is_at k (l, m) = if static_key_matches l k then 1 else 0

  -- What an entry adds to the accumulator of a key, and all entries, in their order.
  abbrev or_new : Option Merged → Merged
  or_new none = new_merged
  or_new (some m) = m

  abbrev absorb : Key → Option Merged → Source → Option Merged
  absorb k accum e =
      if static_key_matches (key e) k then some (strategy.merge (or_new accum) e) else accum

  abbrev pub absorb_entries : Key → Option Merged → List Source → Option Merged
  absorb_entries k accum [] = accum
  absorb_entries k accum (e ∷ es) = absorb_entries k (absorb k accum e) es

  unfoldable pub merge_entries : List Source → KeyedAggregator strategy → KeyedAggregator strategy
  merge_entries [] a = a
  merge_entries (e ∷ es) a = merge_entries es (merge strategy e a)

  apart :
      (l k' k : Key)
      → static_key_matches l k' ≡ false
      → static_key_matches l k ≡ true
      → static_key_matches k' k ≡ false
  apart l k' k h at = elim (Bool-cases (static_key_matches k' k)) [
    | inl same ↦ absurd (
        true≢false (
          sym (matches_refl l)
          ∙ ap (static_key_matches l) (matches_sound l k at ∙ sym (matches_sound k' k same))
          ∙ h))
    | inr other ↦ other
  ]

  find-accum :
      (k : Key) (e : Source) (storage : List (Key × Merged))
      → find k (get_or_create_accum strategy (key e) (λ m. strategy.merge m e) storage)
        ≡ absorb k (find k storage) e
  unfolding get_or_create_accum
  find-accum k e [] = ground arith
  find-accum k e ((l, m) ∷ storage) = elim (Bool-cases (static_key_matches l (key e))) [
    | inl same ↦
        let at = ap (λ x. static_key_matches x k) (matches_sound l (key e) same) in ground arith
    | inr other ↦
        let later = apart l (key e) k other in let ih = find-accum k e storage in ground arith
  ]

  stored_once :
      (k : Key) (e : Source) (storage : List (Key × Merged))
      → total (is_at k) (get_or_create_accum strategy (key e) (λ m. strategy.merge m e) storage) ≡ (
          if static_key_matches (key e) k
          then (if total (is_at k) storage == 0 then 1 else total (is_at k) storage)
          else total (is_at k) storage)
  unfolding get_or_create_accum
  stored_once k e [] = ground arith
  stored_once k e ((l, m) ∷ storage) = elim (Bool-cases (static_key_matches l (key e))) [
    | inl same ↦
        let at = ap (λ x. static_key_matches x k) (matches_sound l (key e) same) in ground arith
    | inr other ↦
        let later = apart l (key e) k other in let ih = stored_once k e storage in ground arith
  ]

  find_merged :
      (es : List Source) (k : Key) (a : KeyedAggregator strategy)
      → find k (merge_entries es a).storage ≡ absorb_entries k (find k a.storage) es
  unfolding merge_entries merge
  find_merged [] k a = refl
  find_merged (e ∷ es) k a =
      find_merged es k (merge strategy e a)
      ∙ ap (λ accum. absorb_entries k accum es) (find-accum k e a.storage)

  once_merged :
      (es : List Source) (k : Key) (a : KeyedAggregator strategy)
      → total (is_at k) a.storage ≤ 1
      → total (is_at k) (merge_entries es a).storage ≤ 1
  unfolding merge_entries merge
  once_merged [] k a h = h
  once_merged (e ∷ es) k a h =
      let stored = stored_once k e a.storage in once_merged es k (merge strategy e a) (ground arith)

  -- After any entries are merged into an empty aggregator, a key holds what merging the entries of
  -- that key alone, in their order, into a new accumulator gives, and nothing without such an entry;
  -- and a drain of the storage gives at most one aggregate for each key.
  pub merge_by_key :
      (order : HashOrder (Key × Merged)) (es : List Source) (k : Key)
      → (find k (merge_entries es (Aggregation.new strategy)).storage ≡ absorb_entries k none es)
        × (total (is_at k) (order.drain (merge_entries es (Aggregation.new strategy)).storage) ≤ 1)
  unfolding Aggregation.new
  merge_by_key order es k =
      let fresh = Aggregation.new strategy in
      let storage = (merge_entries es fresh).storage in
      (
        find_merged es k fresh,
        rw (order.total-drain (is_at k) storage) (once_merged es k fresh (omega arith)),
      )
