-- ===== src/ArrayQueue/Shuttle.antt =====
-- `ArrayQueue` of metrique-writer-core/src/shuttle_test_support.rs: a `VecDeque` behind a lock.
-- Each method holds the lock throughout, so it is one step.
use mathlib.Core.List.{tail}
use metrique.Prelude.{
  front, ℕ, ◌≡◌, refl, Option, none, some, List, [], ◌∷◌, ◌++◌, length, ltb, leb, ◌==◌, arith, Bool,
  if◌then◌else◌,
}
use metrique.ArrayQueue.{ArrayQueue, push_entries}

pub record VecQueue (E : Type 0) : Type 0 where
  pub cap : ℕ
  pub inner : List E

module _ {E : Type 0} where
  -- `assert!(capacity > 0)` is the callers' premise: `none` is the panic.
  pub new : ℕ → Option (VecQueue E)
  new cap = if ltb 0 cap then some (record { cap = cap; inner = [] }) else none

  unfoldable pub force_push : VecQueue E → E → Option E × VecQueue E
  force_push q value =
      let full = leb q.cap (length q.inner) in
      let evicted : Option E = if full then front q.inner else none in
      let rest : List E = if full then tail q.inner else q.inner in
      (evicted, record q { inner = rest ++ value ∷ [] })

  unfoldable pub pop : VecQueue E → Option E × VecQueue E
  pop q = (front q.inner, record q { inner = tail q.inner })

  unfoldable pub len : VecQueue E → ℕ
  len q = length q.inner

  pub is_empty : VecQueue E → Bool
  is_empty q = length q.inner == 0

  pub evicted_lem : (q : VecQueue E) (e : E) → (force_push q e).0 ≡ (push_entries q.cap q.inner e).0
  unfolding force_push push_entries
  evicted_lem q e = ground arith

  pub contents_lem :
      (q : VecQueue E) (e : E) → (force_push q e).1.inner ≡ (push_entries q.cap q.inner e).1
  unfolding force_push push_entries
  contents_lem q e = ground arith

  pub popped_lem : (q : VecQueue E) → (pop q).0 ≡ front q.inner
  unfolding pop
  popped_lem q = refl

  pub rest_lem : (q : VecQueue E) → (pop q).1.inner ≡ tail q.inner
  unfolding pop
  rest_lem q = refl

  pub cap-pop : (q : VecQueue E) → (pop q).1.cap ≡ q.cap
  unfolding pop
  cap-pop q = refl

  pub cap-force_push : (q : VecQueue E) (e : E) → (force_push q e).1.cap ≡ q.cap
  unfolding force_push
  cap-force_push q e = refl

  pub len_lem : (q : VecQueue E) → len q ≡ length q.inner
  unfolding len
  len_lem q = refl

-- The stand-in keeps the promise of the interface.
abbrev pub shuttle_queue : (E : Type 0) → ArrayQueue E
shuttle_queue E = record {
  Queue = VecQueue E;
  new = λ n. record { cap = n; inner = [] };
  force_push = force_push;
  pop = pop;
  len = len;
  capacity = λ q. q.cap;
  contents = λ q. q.inner;
  contents-new = λ n. refl;
  capacity-new = λ n. refl;
  evicted-force_push = evicted_lem;
  contents-force_push = contents_lem;
  capacity-force_push = cap-force_push;
  popped-pop = popped_lem;
  contents-pop = rest_lem;
  capacity-pop = cap-pop;
  len_lem = len_lem;
}
