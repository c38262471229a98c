-- ===== src/Slot/Tests.antt =====
-- A slot over a channel that is its phase, with doubling for a close.
use metrique.Prelude.{Option, none, ℕ, ◌*◌, ◌+◌, ◌≡◌, refl, ap, some, List, [], ◌∷◌, ◌++◌}
use metrique.Slot.{
  Phase, open_phase, sent, lost, received, polled, Oneshot, wait, discard, closed, panicked, Action,
  open_slot, change, drop_guard, drop_fields, poll_wait, cancel_wait, changed, fields_dropped, new,
  open_with, drop_held, poll_receiver, poll_wait_for_data, act, run, close_with, close, open_lazy,
  close_lazy,
}
use metrique.Slot.Account.{account_run, account_close, new_account}
use metrique.Slot.Refine.{slot_refines}
use metrique.Slot.Delivery.{Delivered, close_cancelled, close_delivers}

abbrev send_in : ℕ → Phase ℕ → Phase ℕ
send_in a open_phase = sent a
send_in a (sent b) = sent b
send_in a lost = lost

abbrev lose_in : Phase ℕ → Phase ℕ
lose_in open_phase = lost
lose_in (sent b) = sent b
lose_in lost = lost

send_in_lem : (a : ℕ) (c : Phase ℕ) → c ≡ open_phase → send_in a c ≡ sent a
send_in_lem a c h = ap (send_in a) h

lose_in_lem : (c : Phase ℕ) → c ≡ open_phase → lose_in c ≡ lost
lose_in_lem c h = ap lose_in h

abbrev phases : Oneshot ℕ
phases = record {
  Channel = Phase ℕ;
  channel = open_phase;
  send = send_in;
  drop_sender = lose_in;
  try_recv = received;
  poll = λ c. (polled c, c);
  phase = λ c. c;
  phase-channel = refl;
  phase-send = send_in_lem;
  phase-drop_sender = lose_in_lem;
  try_recv_lem = λ c. refl;
  poll_lem = λ c. refl;
  phase-poll = λ c. refl;
}

abbrev double : ℕ → ℕ
double n = n * 2

-- What a caller does with the data that a wait returns.
abbrev left_alone : Option ℕ → Option ℕ
left_alone d = d

abbrev increment : Option ℕ → Option ℕ
increment none = none
increment (some n) = some (n + 1)

abbrev take_out : Option ℕ → Option ℕ
take_out d = none

-- Opened, waited for, changed, dropped, and waited for again, with a write to the data.
abbrev lent_out : List (Action ℕ ℕ)
lent_out =
    open_slot wait
    ∷ poll_wait left_alone
    ∷ change (λ n. n + 1)
    ∷ drop_guard
    ∷ poll_wait increment
    ∷ drop_fields
    ∷ []

-- The data of a wait is taken out, and the slot is closed.
taken_out :
    close double phases (
      run double phases
        (open_slot discard ∷ drop_guard ∷ poll_wait take_out ∷ [])
        (new double phases 20))
    ≡ panicked
unfolding close close_with run act new open_with drop_held changed fields_dropped poll_wait_for_data
    poll_receiver
taken_out = refl

slot_run_test :
    close double phases (run double phases lent_out (new double phases 20)) ≡ closed (some 43)
unfolding close close_with run act new open_with drop_held changed fields_dropped poll_wait_for_data
    poll_receiver
slot_run_test = refl

-- The second open of a lazy slot changes nothing.
lazily_lent :
    close_lazy double phases
      (open_lazy double phases 5 wait (open_lazy double phases 20 discard none))
    ≡ closed none
unfolding close_lazy open_lazy open_with new close close_with
lazily_lent = refl

slot_refines_example :
    close double phases (run double phases lent_out (new double phases 20))
    ≡ account_close double (account_run double lent_out (new_account double 20))
unfolding run act new open_with drop_held changed fields_dropped poll_wait_for_data poll_receiver
slot_refines_example = slot_refines double phases 20 lent_out refl

close_cancelled_example :
    close double phases (
      run double phases
        ((open_slot discard ∷ poll_wait left_alone ∷ [])
          ++ cancel_wait ∷ (drop_guard ∷ poll_wait increment ∷ drop_fields ∷ []))
        (new double phases 20))
    ≡ panicked
unfolding run act new open_with drop_held changed fields_dropped poll_wait_for_data poll_receiver
close_cancelled_example =
    close_cancelled double phases 20 (open_slot discard ∷ poll_wait left_alone ∷ [])
      (drop_guard ∷ poll_wait increment ∷ drop_fields ∷ []) (tt, (refl, (tt, tt))) refl refl

close_delivers_example :
    Delivered
      (run double phases lent_out (new double phases 20)).lent
      (close double phases (run double phases lent_out (new double phases 20)))
unfolding run act new open_with drop_held changed fields_dropped poll_wait_for_data poll_receiver
close_delivers_example =
    close_delivers double phases 20 lent_out
      (tt, ((λ c. (c, refl)), (tt, (tt, ((λ c. (c + 1, refl)), (tt, tt)))))) refl
