-- ===== src/Emf/Output.antt =====
-- `write_all_vectored` and `advance_slices` of metrique-writer-format-emf/src/buf.rs, over a
-- writer that is an argument.
use metrique.Prelude.{
  ℕ, zero, suc, ◌-◌, Option, none, some, List, [], ◌∷◌, ◌++◌, length, leb, drop, if◌then◌else◌,
}

-- A `&[u8]`.
abbrev pub Bytes : Type 0
Bytes = List ℕ

-- An `io::Error` by its kind, those of the standard library other than two by a number.
pub data IoError : Type 0 where
  write_zero : IoError
  interrupted : IoError
  other : ℕ → IoError

-- What `write_vectored` returns.
pub data IoResult : Type 0 where
  ok : ℕ → IoResult
  err : IoError → IoResult

-- The `io::Write` of the caller, as the states it goes through.
pub record Output : Type 1 where
  pub State : Type 0
  pub write_vectored : State → List Bytes → IoResult × State

-- How `write_all_vectored` ends: it returns, or its assertion fails.
pub data Outcome : Type 0 where
  done : Outcome
  failed : IoError → Outcome
  panicked : Outcome

-- The slices after `count` bytes, unless the assertion at the end fails.
unfoldable pub advance_slices : List Bytes → ℕ → Option (List Bytes)
advance_slices [] zero = some []
advance_slices [] (suc remaining) = none
advance_slices (first ∷ slices) remaining =
    let rest = advance_slices slices (remaining - length first) in
    if leb (length first) remaining then rest else some (drop remaining first ∷ slices)

module _ (output : Output) where
  open output use {State, write_vectored}

  -- The loop, `io_slices` being what the last round has left there; none when the fuel runs out.
  unfoldable pub write_loop : ℕ → List Bytes → List Bytes → State → Option (Outcome × State)
  write_loop zero slices io_slices w = none
  write_loop (suc fuel) [] io_slices w = some (done, w)
  write_loop (suc fuel) (first ∷ slices) io_slices w =
      let (answer, w') = write_vectored w (io_slices ++ first ∷ slices) in
      elim answer [
        | ok zero ↦ some (failed write_zero, w')
        | ok (suc n) ↦ elim (advance_slices (first ∷ slices) (suc n)) [
          | none ↦ some (panicked, w')
          | some slices' ↦ write_loop fuel slices' [] w'
        ]
        | err interrupted ↦ write_loop fuel (first ∷ slices) [] w'
        | err e ↦ some (failed e, w')
      ]

  unfoldable pub write_all_vectored : ℕ → List Bytes → State → Option (Outcome × State)
  unfolding write_loop advance_slices
  write_all_vectored fuel bufs w = elim (advance_slices bufs 0) [
    | none ↦ some (panicked, w)
    | some slices ↦ write_loop fuel slices [] w
  ]
