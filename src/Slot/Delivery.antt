-- ===== src/Slot/Delivery.antt =====
-- Which slots give their value when they are closed, and which panic.
use metrique.Prelude.{
  ◌≡◌, refl, sym, ap, ◌∙◌, Bool, true, false, Option, some, none, All, List, [], ◌∷◌, ◌++◌, arith,
}
use metrique.Slot.{
  Phase, open_phase, sent, lost, Oneshot, Lent, unopened, held, dropping, gone, Closing, closed,
  panicked, Action, open_slot, change, delay_flush, drop_guard, drop_panics, drop_fields, poll_wait,
  cancel_wait, changed, fields_dropped, new, run, close,
}
use metrique.Slot.Account.{Account, new_account, account_act, account_run, closing}
use metrique.Slot.Refine.{in_step, slot_refines, slot_waits, slot_lent}

-- No data is put where there is none.
abbrev pub PutsNone : {T Closed : Type 0} → Action T Closed → Type 0
PutsNone (poll_wait f) = f none ≡ none
PutsNone x = Unit

module _ {T Closed : Type 0} (close_value : T → Closed) where
  account_act-forfeited :
      (x : Action T Closed) (a : Account T Closed)
      → PutsNone x
      → a.answer ≡ some none
      → (account_act close_value x a).answer ≡ some none
  account_act-forfeited (open_slot mode) a p h = ground (arith, h)
  account_act-forfeited (change f) a p h = h
  account_act-forfeited delay_flush a p h = h
  account_act-forfeited drop_guard a p h = ground (arith, h)
  account_act-forfeited drop_panics a p h = ground (arith, h)
  account_act-forfeited drop_fields a p h = h
  account_act-forfeited (poll_wait f) a p h = rw h (ap some p)
  account_act-forfeited cancel_wait a p h = ground (arith, h)

  account_run-forfeited :
      (actions : List (Action T Closed)) (a : Account T Closed)
      → All PutsNone actions
      → a.answer ≡ some none
      → (account_run close_value actions a).answer ≡ some none
  account_run-forfeited [] a p h = h
  account_run-forfeited (x ∷ actions) a p h =
      account_run-forfeited actions (account_act close_value x a) p.1
        (account_act-forfeited x a p.0 h)

  account_run-append :
      (before after : List (Action T Closed)) (a : Account T Closed)
      → account_run close_value (before ++ after) a
        ≡ account_run close_value after (account_run close_value before a)
  account_run-append [] after a = refl
  account_run-append (x ∷ before) after a =
      account_run-append before after (account_act close_value x a)

  cancelled_forfeits :
      (before after : List (Action T Closed)) (a : Account T Closed)
      → All PutsNone after
      → (account_run close_value before a).in_wait ≡ true
      → (account_run close_value (before ++ cancel_wait ∷ after) a).answer ≡ some none
  cancelled_forfeits before after a p h =
      ap (λ b. b.answer) (account_run-append before (cancel_wait ∷ after) a)
      ∙ account_run-forfeited after
          (account_act close_value cancel_wait (account_run close_value before a)) p
          (ground (arith, h))

  -- When a wait for a slot is cancelled before the guard is dropped, then, with no wait under way,
  -- the close of the slot panics, whatever happens after the cancellation, unless the caller puts
  -- data through the reference that a later wait returns: the value of the guard is not delivered.
  pub close_cancelled :
      (oneshot : Oneshot Closed) (value : T) (before after : List (Action T Closed))
      → All PutsNone after
      → (run close_value oneshot before (new close_value oneshot value)).waiting ≡ true
      → (run close_value oneshot
          (before ++ cancel_wait ∷ after)
          (new close_value oneshot value)).waiting
        ≡ false
      → close close_value oneshot
          (run close_value oneshot (before ++ cancel_wait ∷ after) (new close_value oneshot value))
        ≡ panicked
  close_cancelled oneshot value before after p pending free =
      slot_refines close_value oneshot value (before ++ cancel_wait ∷ after) free
      ∙ ap
          (λ answer.
            closing close_value answer
              (account_run close_value (before ++ cancel_wait ∷ after)
                (new_account close_value value)).delivered)
          (cancelled_forfeits before after (new_account close_value value) p
            (sym (slot_waits close_value oneshot value before) ∙ pending))

-- Neither a wait that is cancelled, nor data that is taken out through a reference, nor a value whose
-- close panics.
abbrev pub IsQuiet : {T Closed : Type 0} → Action T Closed → Type 0
IsQuiet cancel_wait = ⊥
IsQuiet drop_panics = ⊥
IsQuiet {T} {Closed} (poll_wait f) = (c : Closed) → (d : Closed) × (f (some c) ≡ some d)
IsQuiet x = Unit

-- Nothing is delivered before the guard is dropped, and a value after that.
abbrev pub Delivered : {T Closed : Type 0} → Lent T → Closing Closed → Type 0
Delivered unopened result = result ≡ closed none
Delivered (held guard) result = result ≡ closed none
Delivered {T} {Closed} (dropping mode) result = (c : Closed) × (result ≡ closed (some c))
Delivered {T} {Closed} gone result = (c : Closed) × (result ≡ closed (some c))

-- What a wait has found and the parent has kept is there only once the guard has sent.
abbrev heard : {Closed : Type 0} → Option (Option Closed) → Phase Closed → Bool
heard none open_phase = true
heard none (sent c) = true
heard (some (some d)) (sent c) = true
heard answer phase = false

module _ {T Closed : Type 0} (close_value : T → Closed) where
  record IsSound (a : Account T Closed) : Type 0 where
    there : heard a.answer a.delivered ≡ true
    orderly : in_step a.lent a.delivered ≡ true

  poll_wait-heard :
      (f : Option Closed → Option Closed) (a : Account T Closed) (answer : Option (Option Closed))
      (phase : Phase Closed)
      → a.answer ≡ answer
      → a.delivered ≡ phase
      → ((c : Closed) → (d : Closed) × (f (some c) ≡ some d))
      → heard answer phase ≡ true
      → heard
          (account_act close_value (poll_wait f) a).answer
          (account_act close_value (poll_wait f) a).delivered
        ≡ true
  poll_wait-heard f a none open_phase e e' q h = ground (arith, e, e')
  poll_wait-heard f a none (sent c) e e' q h = let (d, k) = q c in rw (e, e', k) refl
  poll_wait-heard f a none lost e e' q h = absurd (ground (arith, h))
  poll_wait-heard f a (some (some d)) (sent c) e e' q h = let (d', k) = q d in rw (e, e', k) refl
  poll_wait-heard f a (some none) phase e e' q h = absurd (ground (arith, h))
  poll_wait-heard f a (some (some d)) open_phase e e' q h = absurd (ground (arith, h))
  poll_wait-heard f a (some (some d)) lost e e' q h = absurd (ground (arith, h))

  account_act-IsSound :
      (x : Action T Closed) (a : Account T Closed)
      → IsQuiet x
      → IsSound a
      → IsSound (account_act close_value x a)
  unfolding changed fields_dropped
  account_act-IsSound (open_slot mode) a q h = ground (arith, h)
  account_act-IsSound (change f) a q h = ground (arith, h)
  account_act-IsSound delay_flush a q h = ground (arith, h)
  account_act-IsSound drop_guard a q h = ground (arith, h)
  account_act-IsSound drop_panics a q h = absurd q
  account_act-IsSound drop_fields a q h = ground (arith, h)
  account_act-IsSound (poll_wait f) a q h =
      let h' = poll_wait-heard f a a.answer a.delivered refl refl q h.there in ground (arith, h, h')
  account_act-IsSound cancel_wait a q h = absurd q

  account_run-IsSound :
      (actions : List (Action T Closed)) (a : Account T Closed)
      → All IsQuiet actions
      → IsSound a
      → IsSound (account_run close_value actions a)
  account_run-IsSound [] a q h = h
  account_run-IsSound (x ∷ actions) a q h =
      account_run-IsSound actions (account_act close_value x a) q.1 (account_act-IsSound x a q.0 h)

  closing-Delivered :
      (lent : Lent T) (phase : Phase Closed) (answer : Option (Option Closed))
      → heard answer phase ≡ true
      → in_step lent phase ≡ true
      → Delivered lent (closing close_value answer phase)
  closing-Delivered unopened open_phase none t o = refl
  closing-Delivered (held guard) open_phase none t o = refl
  closing-Delivered (dropping mode) (sent c) none t o = (c, refl)
  closing-Delivered gone (sent c) none t o = (c, refl)
  closing-Delivered (dropping mode) (sent c) (some (some d)) t o = (d, refl)
  closing-Delivered gone (sent c) (some (some d)) t o = (d, refl)
  closing-Delivered lent phase answer t o = absurd (ground (arith, t, o))

  -- When no wait is cancelled, no value panics as it is closed, and no write through the references
  -- that the waits return takes the data out, then, with no wait under way, the close of a slot does
  -- not panic. It gives a value when the guard has been dropped, be it that its fields are not, and
  -- before that nothing.
  pub close_delivers :
      (oneshot : Oneshot Closed) (value : T) (actions : List (Action T Closed))
      → All IsQuiet actions
      → (run close_value oneshot actions (new close_value oneshot value)).waiting ≡ false
      → Delivered (run close_value oneshot actions (new close_value oneshot value)).lent (
          close close_value oneshot
            (run close_value oneshot actions (new close_value oneshot value)))
  close_delivers oneshot value actions quiet free =
      let a = account_run close_value actions (new_account close_value value) in
      let h =
        account_run-IsSound actions (new_account close_value value) quiet
          (record { there = refl; orderly = refl }) in
      rw
        (
          slot_refines close_value oneshot value actions free,
          slot_lent close_value oneshot value actions,
        )
        (closing-Delivered a.lent a.delivered a.answer h.there h.orderly)
