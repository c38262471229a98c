-- ===== src/ArrayQueue.antt =====
-- The bounded queue that the sinks share: `crossbeam_queue::ArrayQueue` in production, and its
-- stand-in of metrique-writer-core/src/shuttle_test_support.rs under shuttle. The former is not
-- part of the repository, so the sinks take an interface, and `Shuttle` fills it by the latter.
pub mod Shuttle
use mathlib.Core.List.{tail}
use metrique.Prelude.{
  ℕ, ◌+◌, ◌≤◌, ◌<◌, ◌≡◌, ◌⊎◌, refl, Bool-cases, inl, inr, Option, none, some, List, [], ◌∷◌, ◌++◌,
  length, front, length-append, ltb, lt→ltb, arith, if◌then◌else◌,
}

-- What `force_push` promises of the entries, oldest first: the oldest is evicted when the queue is
-- full.
module _ {E : Type 0} where
  unfoldable pub push_entries : ℕ → List E → E → Option E × List E
  push_entries cap xs e =
      if ltb (length xs) cap then (none, xs ++ e ∷ []) else (front xs, tail xs ++ e ∷ [])

  -- A queue within its capacity stays within it.
  pub length-push_entries :
      (cap : ℕ) (xs : List E) (e : E)
      → 0 < cap
      → length xs ≤ cap
      → length (push_entries cap xs e).1 ≤ cap
  unfolding push_entries
  length-push_entries cap [] e h k = ground (arith, lt→ltb 0 cap)
  length-push_entries cap (x ∷ xs) e h k = ground (arith, length-append xs (e ∷ []))

  -- A push either extends the entries, or replaces the oldest by the newest.
  pub push_entries_cases :
      (cap : ℕ) (xs : List E) (e : E)
      → 0 < cap
      → ((push_entries cap xs e).0 ≡ none) × ((push_entries cap xs e).1 ≡ xs ++ e ∷ [])
        ⊎ ((old : E) × ((push_entries cap xs e).0 ≡ some old)
            × (xs ≡ old ∷ tail xs)
            × ((push_entries cap xs e).1 ≡ tail xs ++ e ∷ []))
  unfolding push_entries
  push_entries_cases cap [] e h = rw (lt→ltb 0 cap h) (inl (refl, refl))
  push_entries_cases cap (x ∷ xs) e h = elim (Bool-cases (ltb (length (x ∷ xs)) cap)) [
    | inl room ↦ rw room (inl (refl, refl))
    | inr full ↦ rw full (inr (x, refl, refl, refl))
  ]

-- The operations that the sinks call, with what is documented of them.
pub record ArrayQueue (E : Type 0) : Type 1 where
  pub Queue : Type 0
  pub new : ℕ → Queue
  pub force_push : Queue → E → Option E × Queue
  pub pop : Queue → Option E × Queue
  pub len : Queue → ℕ
  pub capacity : Queue → ℕ
  -- The entries, oldest first: what the laws speak of, no operation of the queue.
  pub contents : Queue → List E
  pub contents-new : (n : ℕ) → contents (new n) ≡ []
  pub capacity-new : (n : ℕ) → capacity (new n) ≡ n
  pub evicted-force_push :
      (q : Queue) (e : E) → (force_push q e).0 ≡ (push_entries (capacity q) (contents q) e).0
  pub contents-force_push :
      (q : Queue) (e : E)
      → contents (force_push q e).1 ≡ (push_entries (capacity q) (contents q) e).1
  pub capacity-force_push : (q : Queue) (e : E) → capacity (force_push q e).1 ≡ capacity q
  pub popped-pop : (q : Queue) → (pop q).0 ≡ front (contents q)
  pub contents-pop : (q : Queue) → contents (pop q).1 ≡ tail (contents q)
  pub capacity-pop : (q : Queue) → capacity (pop q).1 ≡ capacity q
  pub len_lem : (q : Queue) → len q ≡ length (contents q)
