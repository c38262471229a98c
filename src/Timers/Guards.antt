-- ===== src/Timers/Guards.antt =====
-- What the end of a guard, a share and a clear do to the duration that is stored.
use metrique.Prelude.{ℕ, ◌≡◌, refl, Bool, true, false, Option, none, List, arith}
use metrique.Timers.{
  elapsed, MaybeGuardedDuration, exclusive, shared, Durations, fresh_guard, Ending, dropping,
  stopping, overwriting, discarding, end_guard, take, shared_cloned,
}
use metrique.Timers.Tally.{tallied, reported}

-- The duration that is stored, and whether no guard shares it.
abbrev pub value : Durations → Option ℕ
value (exclusive duration, cell) = duration
value (shared, cell) = cell

abbrev pub is_exclusive : MaybeGuardedDuration → Bool
is_exclusive (exclusive duration) = true
is_exclusive shared = false

-- What the end of a guard does to the duration and to what was returned.
pub end_fresh :
    (e : Ending) (now begin : ℕ) (d : MaybeGuardedDuration) (cell : Option ℕ)
    (returned : List (Option ℕ))
    → (value (end_guard e now (fresh_guard begin) (d, cell) returned).0
        ≡ tallied e (elapsed now begin) (value (d, cell)))
      × ((end_guard e now (fresh_guard begin) (d, cell) returned).1
          ≡ reported e (elapsed now begin) returned)
      × (is_exclusive (end_guard e now (fresh_guard begin) (d, cell) returned).0.0 ≡ is_exclusive d)
unfolding end_guard
end_fresh dropping now begin (exclusive o) cell returned = (refl, refl, refl)
end_fresh dropping now begin shared cell returned = (refl, refl, refl)
end_fresh stopping now begin (exclusive o) cell returned = (refl, refl, refl)
end_fresh stopping now begin shared cell returned = (refl, refl, refl)
end_fresh overwriting now begin (exclusive o) cell returned = ground arith
end_fresh overwriting now begin shared cell returned = ground arith
end_fresh discarding now begin (exclusive o) cell returned = (refl, refl, refl)
end_fresh discarding now begin shared cell returned = (refl, refl, refl)

pub cloned_lem :
    (d : Durations)
    → (value (shared_cloned d) ≡ value d) × (is_exclusive (shared_cloned d).0 ≡ false)
unfolding shared_cloned
cloned_lem (exclusive o, cell) = (refl, refl)
cloned_lem (shared, cell) = (refl, refl)

pub taken_lem :
    (d : Durations) → (value (take d) ≡ none) × (is_exclusive (take d).0 ≡ is_exclusive d.0)
unfolding take
taken_lem (exclusive o, cell) = (refl, refl)
taken_lem (shared, cell) = (refl, refl)

pub value_shared : (d : Durations) → is_exclusive d.0 ≡ false → value d ≡ d.1
value_shared (exclusive o, cell) h = cc
value_shared (shared, cell) h = refl
