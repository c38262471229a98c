-- ===== src/Emf/Vectored.antt =====
-- What `write_all_vectored` puts into a writer that keeps the contract of `Write`.
use metrique.Prelude.{
  ℕ, zero, suc, ◌+◌, ◌-◌, ◌<◌, ◌≤◌, ◌≡◌, ◌≢◌, refl, sym, ap, ◌∙◌, Option, some, List, [], ◌∷◌, ◌++◌,
  append-nil, append_assoc, length, leb, take, drop, concat, take-drop, drop-append_past,
  drop-append_within, take_add, length-drop, length-append, leb→le, Bool-cases, inl, inr, arith,
}
use metrique.Emf.Output.{
  Bytes, IoError, write_zero, interrupted, other, IoResult, ok, err, Output, Outcome, done, failed,
  panicked, advance_slices, write_loop, write_all_vectored,
}

-- That no call is made with nothing at the front.
abbrev pub IsReady : List Bytes → Type 0
IsReady [] = Unit
IsReady (first ∷ slices) = 0 < length first

-- `count` bytes that the slices hold are dropped, and the assertion holds.
pub advance_slices_lem :
    (slices : List Bytes) (count : ℕ)
    → count ≤ length (concat slices)
    → (rest : List Bytes) × (advance_slices slices count ≡ some rest)
      × (concat rest ≡ drop count (concat slices))
      × IsReady rest
unfolding advance_slices
advance_slices_lem [] zero h = ([], refl, refl, tt)
advance_slices_lem [] (suc count) h = absurd (omega arith)
advance_slices_lem (first ∷ slices) count h = elim (Bool-cases (leb (length first) count)) [
  | inl le ↦
      let at = leb→le (length first) count le in
      let (rest, e, cut, ready) =
        advance_slices_lem slices (count - length first)
          (omega (arith, length-append first (concat slices))) in
      (rest, rw le e, cut ∙ sym (drop-append_past count first (concat slices) at), ready)
  | inr gt ↦
      let within : count < length first = ground arith in
      (
        drop count first ∷ slices,
        rw gt refl,
        sym (drop-append_within count first (concat slices) (omega arith)),
        omega (arith, length-drop count first (omega arith)),
      )
]

-- What a caller of `Write` relies on, `written` being the bytes that a state has accepted: an answer
-- `Ok(n)` is of the first `n` bytes and at most all of them, an error accepts none, and interruptions
-- are spent.
pub record IsWrite (output : Output) (written : output.State → Bytes) (patience : output.State → ℕ)
    : Type 0 where
  pub accepted :
      (w w' : output.State) (bufs : List Bytes) (n : ℕ)
      → output.write_vectored w bufs ≡ (ok n, w')
      → (n ≤ length (concat bufs))
        × (written w' ≡ written w ++ take n (concat bufs))
        × (patience w' ≤ patience w)
  pub refused :
      (w w' : output.State) (bufs : List Bytes) (e : IoError)
      → output.write_vectored w bufs ≡ (err e, w')
      → written w' ≡ written w
  pub interruption :
      (w w' : output.State) (bufs : List Bytes)
      → output.write_vectored w bufs ≡ (err interrupted, w')
      → patience w' < patience w

module _ (output : Output) (written : output.State → Bytes) (patience : output.State → ℕ)
    (keeps : IsWrite output written patience) where
  open output use {State, write_vectored}

  -- What stands in the writer at the end: all the bytes, with no more interruptions left than before, or with an error a proper first part of
  -- them. An interruption is no such error.
  abbrev pub Ends : Outcome → Bytes → State → State → Type 0
  Ends done bytes w w' = (written w' ≡ written w ++ bytes) × (patience w' ≤ patience w)
  Ends (failed e) bytes w w' =
      (e ≢ interrupted) × (k : ℕ) × (k < length bytes) × (written w' ≡ written w ++ take k bytes)
  Ends panicked bytes w w' = ⊥

  abbrev pub EndsWell : Option (Outcome × State) → Bytes → State → Type 0
  EndsWell run bytes w =
      (outcome : Outcome) × (w' : State) × (run ≡ some (outcome, w')) × Ends outcome bytes w w'

  -- What ends well after some bytes are accepted ends well from before them.
  pub Ends-accepted :
      (outcome : Outcome) (bytes : Bytes) (n : ℕ) (w w' w'' : State)
      → n ≤ length bytes
      → written w' ≡ written w ++ take n bytes
      → patience w' ≤ patience w
      → Ends outcome (drop n bytes) w' w''
      → Ends outcome bytes w w''
  Ends-accepted done bytes n w w' w'' le at settled (h, more) = (
    h
        ∙ ap (λ xs. xs ++ drop n bytes) at
        ∙ append_assoc (written w) (take n bytes) (drop n bytes)
        ∙ ap (λ xs. written w ++ xs) (take-drop n bytes),
    omega arith,
  )
  Ends-accepted (failed e) bytes n w w' w'' le at settled (ne, k, lt, h) = (
    ne,
    n + k,
    omega (arith, length-drop n bytes le),
    h
        ∙ ap (λ xs. xs ++ take k (drop n bytes)) at
        ∙ append_assoc (written w) (take n bytes) (take k (drop n bytes))
        ∙ ap (λ xs. written w ++ xs) (sym (take_add n k bytes)),
  )
  Ends-accepted panicked bytes n w w' w'' le at settled h = h

  -- An error before which the bytes of this round are not accepted.
  Ends-refused :
      (e : IoError) (first : Bytes) (slices : List Bytes) (w w' : State)
      → e ≢ interrupted
      → 0 < length first
      → written w' ≡ written w
      → Ends (failed e) (concat (first ∷ slices)) w w'
  Ends-refused e first slices w w' ne ready at =
      (ne, 0, omega (arith, length-append first (concat slices)), at ∙ sym (append-nil (written w)))

  write_loop-advance :
      (fuel : ℕ) (first : Bytes) (slices rest : List Bytes) (w w' : State) (n : ℕ)
      → write_vectored w (first ∷ slices) ≡ (ok (suc n), w')
      → advance_slices (first ∷ slices) (suc n) ≡ some rest
      → write_loop output (suc fuel) (first ∷ slices) [] w ≡ write_loop output fuel rest [] w'
  unfolding write_loop
  write_loop-advance fuel first slices rest w w' n at e =
      rw (ap (λ p. p.0) at, e, ap (λ p. p.1) at, write_loop) refl

  -- One round, and what the next ones do.
  write_loop-round :
      (fuel : ℕ) (first : Bytes) (slices : List Bytes) (w w' : State) (answer : IoResult)
      → write_vectored w (first ∷ slices) ≡ (answer, w')
      → 0 < length first
      → patience w + length (concat (first ∷ slices)) < suc fuel
      → ((rest : List Bytes) (v : State)
          → IsReady rest
          → patience v + length (concat rest) < fuel
          → EndsWell (write_loop output fuel rest [] v) (concat rest) v)
      → EndsWell (write_loop output (suc fuel) (first ∷ slices) [] w) (concat (first ∷ slices)) w
  unfolding write_loop
  write_loop-round fuel first slices w w' (ok zero) at ready h next =
      let (le, more, settled) = keeps.accepted w w' (first ∷ slices) 0 at in
      (
        failed write_zero,
        w',
        rw (ap (λ p. p.0) at, ap (λ p. p.1) at, write_loop) refl,
        Ends-refused write_zero first slices w w' (λ e. ground arith) ready
            (more ∙ append-nil (written w)),
      )
  write_loop-round fuel first slices w w' (ok (suc n)) at ready h next =
      let (le, more, settled) = keeps.accepted w w' (first ∷ slices) (suc n) at in
      let (rest, e, cut, up) = advance_slices_lem (first ∷ slices) (suc n) le in
      let (outcome, v, run, ends) =
        next rest w' up
          (omega (arith, ap length cut, length-drop (suc n) (concat (first ∷ slices)) le)) in
      (
        outcome,
        v,
        write_loop-advance fuel first slices rest w w' n at e ∙ run,
        Ends-accepted outcome (concat (first ∷ slices)) (suc n) w w' v le more settled
            (rw (sym cut) ends),
      )
  write_loop-round fuel first slices w w' (err interrupted) at ready h next =
      let (outcome, v, run, ends) =
        next (first ∷ slices) w' ready
          (omega (arith, keeps.interruption w w' (first ∷ slices) at)) in
      (
        outcome,
        v,
        rw (ap (λ p. p.0) at, ap (λ p. p.1) at, write_loop) run,
        Ends-accepted outcome (concat (first ∷ slices)) 0 w w' v (omega arith)
            (keeps.refused w w' (first ∷ slices) interrupted at ∙ sym (append-nil (written w)))
            (omega (arith, keeps.interruption w w' (first ∷ slices) at)) ends,
      )
  write_loop-round fuel first slices w w' (err write_zero) at ready h next = (
    failed write_zero,
    w',
    rw (ap (λ p. p.0) at, ap (λ p. p.1) at, write_loop) refl,
    Ends-refused write_zero first slices w w' (λ e. ground arith) ready
        (keeps.refused w w' (first ∷ slices) write_zero at),
  )
  write_loop-round fuel first slices w w' (err (other k)) at ready h next = (
    failed (other k),
    w',
    rw (ap (λ p. p.0) at, ap (λ p. p.1) at, write_loop) refl,
    Ends-refused (other k) first slices w w' (λ e. ground arith) ready
        (keeps.refused w w' (first ∷ slices) (other k) at),
  )

  write_loop_lem :
      (fuel : ℕ) (slices : List Bytes) (w : State)
      → IsReady slices
      → patience w + length (concat slices) < fuel
      → EndsWell (write_loop output fuel slices [] w) (concat slices) w
  unfolding write_loop
  write_loop_lem zero slices w ready h = absurd (omega arith)
  write_loop_lem (suc fuel) [] w ready h =
      (done, w, refl, (sym (append-nil (written w)), omega arith))
  write_loop_lem (suc fuel) (first ∷ slices) w ready h =
      let (answer, w') = write_vectored w (first ∷ slices) in
      write_loop-round fuel first slices w w' answer refl ready h (write_loop_lem fuel)

  write_all_vectored-write_loop :
      (fuel : ℕ) (bufs slices : List Bytes) (w : State)
      → advance_slices bufs 0 ≡ some slices
      → concat slices ≡ concat bufs
      → EndsWell (write_loop output fuel slices [] w) (concat slices) w
      → EndsWell (write_all_vectored output fuel bufs w) (concat bufs) w
  unfolding write_all_vectored
  write_all_vectored-write_loop fuel bufs slices w e cut (outcome, v, run, ends) =
      (outcome, v, rw (e, write_all_vectored) run, rw (sym cut) ends)

  -- With more fuel than the interruptions left and the bytes, it ends: it returns, and all bytes of
  -- the buffers are written after what was there, in their order, and no more interruptions are left
  -- than before, or it returns an error that is no interruption, and then a proper first part of them
  -- is written. The assertion never fails.
  pub write_all_vectored_lem :
      (fuel : ℕ) (bufs : List Bytes) (w : State)
      → patience w + length (concat bufs) < fuel
      → EndsWell (write_all_vectored output fuel bufs w) (concat bufs) w
  write_all_vectored_lem fuel bufs w h =
      let (slices, e, cut, ready) = advance_slices_lem bufs 0 (omega arith) in
      write_all_vectored-write_loop fuel bufs slices w e cut
        (write_loop_lem fuel slices w ready (omega (arith, ap length cut)))
