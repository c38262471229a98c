-- ===== src/Slot/Refine.antt =====
-- The slot keeps its account.
use metrique.Prelude.{
  ◌≡◌, refl, sym, ◌∙◌, Bool, true, false, not, ◌||◌, ◌&&◌, Option, none, some, List, [], ◌∷◌, arith,
}
use metrique.Slot.{
  Phase, open_phase, sent, lost, Oneshot, discard, SlotGuard, Lent, unopened, held, dropping, gone,
  Action, open_slot, change, delay_flush, drop_guard, drop_panics, drop_fields, poll_wait,
  cancel_wait, changed, fields_dropped, World, new, open_with, drop_held, drop_failing,
  poll_receiver, poll_wait_for_data, act, run, close_with, close,
}
use metrique.Slot.Account.{
  Account, new_account, account_drop, account_lose, account_act, account_run, account_close,
}

-- What stays in the slot until it is opened.
abbrev kept_guard : {T : Type 0} → T → Lent T → Option (SlotGuard T)
kept_guard value unopened = some (record { value = value; parent_drop_mode = discard })
kept_guard value (held guard) = none
kept_guard value (dropping mode) = none
kept_guard value gone = none

-- Before the guard is dropped, its sender is there, and after it is not.
abbrev pub in_step : {T Closed : Type 0} → Lent T → Phase Closed → Bool
in_step unopened open_phase = true
in_step (held guard) open_phase = true
in_step (dropping mode) (sent c) = true
in_step (dropping mode) lost = true
in_step gone (sent c) = true
in_step gone lost = true
in_step lent phase = false

-- Whether there is an answer, and what is in it.
abbrev answered : {Closed : Type 0} → Option (Option Closed) → Bool
answered none = false
answered (some kept) = true

abbrev data_of : {Closed : Type 0} → Option (Option Closed) → Option Closed
data_of none = none
data_of (some kept) = kept

module _ {T Closed : Type 0} (close_value : T → Closed) (oneshot : Oneshot Closed) where
  record Refines (w : World close_value oneshot) (a : Account T Closed) : Type 0 where
    same_lent : w.lent ≡ a.lent
    same_phase : oneshot.phase w.channel ≡ a.delivered
    same_wait : w.waiting ≡ a.in_wait
    same_tx : w.slot.tx ≡ kept_guard a.initial a.lent
    same_rx : w.slot.rx ≡ not (a.in_wait || answered a.answer)
    same_data : w.slot.data_field ≡ data_of a.answer
    orderly : in_step a.lent a.delivered ≡ true
    told_apart : a.in_wait && answered a.answer ≡ false

  new-Refines :
      (value : T) → Refines (new close_value oneshot value) (new_account close_value value)
  unfolding new
  new-Refines value = ground (arith, oneshot.phase-channel)

  drop-Refines :
      (w : World close_value oneshot) (a : Account T Closed) (lent : Lent T)
      → w.lent ≡ lent
      → Refines w a
      → Refines (drop_held close_value oneshot w.lent w) (account_drop close_value a.lent a)
  unfolding drop_held
  drop-Refines w a unopened e r = ground (arith, r, e)
  drop-Refines w a (held guard) e r =
      ground (arith, r, e, oneshot.phase-send (close_value guard.value) w.channel)
  drop-Refines w a (dropping mode) e r = ground (arith, r, e)
  drop-Refines w a gone e r = ground (arith, r, e)

  lose-Refines :
      (w : World close_value oneshot) (a : Account T Closed) (lent : Lent T)
      → w.lent ≡ lent
      → Refines w a
      → Refines (drop_failing close_value oneshot w.lent w) (account_lose close_value a.lent a)
  unfolding drop_failing
  lose-Refines w a unopened e r = ground (arith, r, e)
  lose-Refines w a (held guard) e r = ground (arith, r, e, oneshot.phase-drop_sender w.channel)
  lose-Refines w a (dropping mode) e r = ground (arith, r, e)
  lose-Refines w a gone e r = ground (arith, r, e)

  poll-Refines :
      (f : Option Closed → Option Closed) (w : World close_value oneshot) (a : Account T Closed)
      → Refines w a
      → Refines
          (poll_wait_for_data close_value oneshot f w)
          (account_act close_value (poll_wait f) a)
  unfolding poll_wait_for_data poll_receiver
  poll-Refines f w a r = ground (arith, r, oneshot.poll_lem w.channel, oneshot.phase-poll w.channel)

  act-Refines :
      (x : Action T Closed) (w : World close_value oneshot) (a : Account T Closed)
      → Refines w a
      → Refines (act close_value oneshot x w) (account_act close_value x a)
  unfolding act open_with drop_held drop_failing changed fields_dropped
  act-Refines (open_slot mode) w a r = ground (arith, r)
  act-Refines (change f) w a r = ground (arith, r)
  act-Refines delay_flush w a r = ground (arith, r)
  act-Refines drop_guard w a r = drop-Refines w a w.lent refl r
  act-Refines drop_panics w a r = lose-Refines w a w.lent refl r
  act-Refines drop_fields w a r = ground (arith, r)
  act-Refines (poll_wait f) w a r = poll-Refines f w a r
  act-Refines cancel_wait w a r = ground (arith, r)

  run-Refines :
      (actions : List (Action T Closed)) (w : World close_value oneshot) (a : Account T Closed)
      → Refines w a
      → Refines (run close_value oneshot actions w) (account_run close_value actions a)
  unfolding run
  run-Refines [] w a r = r
  run-Refines (x ∷ actions) w a r =
      run-Refines actions (act close_value oneshot x w) (account_act close_value x a)
        (act-Refines x w a r)

  close-Refines :
      (w : World close_value oneshot) (a : Account T Closed)
      → Refines w a
      → a.in_wait ≡ false
      → close close_value oneshot w ≡ account_close close_value a
  unfolding close close_with
  close-Refines w a r h = ground (arith, r, h, oneshot.try_recv_lem w.channel)

  -- Whatever is done with a slot and its guard, however its waits are polled and cancelled, and
  -- whatever is put through the references that they return, when no wait is under way the close of
  -- the slot is what its account says. Before a wait has ended it gives the value that the guard held
  -- when it was dropped, closed, or nothing before that. After that it gives the data, as the wait
  -- and the writes through the references left it, and panics if there is none.
  pub slot_refines :
      (value : T) (actions : List (Action T Closed))
      → (run close_value oneshot actions (new close_value oneshot value)).waiting ≡ false
      → close close_value oneshot (run close_value oneshot actions (new close_value oneshot value))
        ≡ account_close close_value
            (account_run close_value actions (new_account close_value value))
  slot_refines value actions h =
      let w = run close_value oneshot actions (new close_value oneshot value) in
      let a = account_run close_value actions (new_account close_value value) in
      let r =
        run-Refines actions (new close_value oneshot value) (new_account close_value value)
          (new-Refines value) in
      close-Refines w a r (sym r.same_wait ∙ h)

  pub slot_waits :
      (value : T) (actions : List (Action T Closed))
      → (run close_value oneshot actions (new close_value oneshot value)).waiting
        ≡ (account_run close_value actions (new_account close_value value)).in_wait
  slot_waits value actions =
      (run-Refines actions (new close_value oneshot value) (new_account close_value value)
        (new-Refines value)).same_wait

  pub slot_lent :
      (value : T) (actions : List (Action T Closed))
      → (run close_value oneshot actions (new close_value oneshot value)).lent
        ≡ (account_run close_value actions (new_account close_value value)).lent
  slot_lent value actions =
      (run-Refines actions (new close_value oneshot value) (new_account close_value value)
        (new-Refines value)).same_lent
