-- ===== src/Slot/Account.antt =====
-- What a slot promises: an account of its guard and of the waits, with no channel in it.
use metrique.Prelude.{Bool, true, false, Option, none, some, List, [], ◌∷◌}
use metrique.Slot.{
  Phase, open_phase, sent, lost, received, OnParentDrop, Lent, unopened, held, dropping, Closing,
  closed, panicked, Action, open_slot, change, delay_flush, drop_guard, drop_panics, drop_fields,
  poll_wait, cancel_wait, wait, changed, fields_dropped,
}

-- `answer` is what the parent has in place of the receiver, when it has used that up: what a wait
-- found, nothing if it found the sender lost or was cancelled, and then whatever the parent has put
-- there.
pub record Account (T Closed : Type 0) : Type 0 where
  pub initial : T
  pub lent : Lent T
  pub delivered : Phase Closed
  pub in_wait : Bool
  pub answer : Option (Option Closed)

module _ {T Closed : Type 0} (close_value : T → Closed) where
  abbrev pub new_account : T → Account T Closed
  new_account value = record {
    initial = value;
    lent = unopened;
    delivered = open_phase;
    in_wait = false;
    answer = none;
  }

  abbrev pub account_open : OnParentDrop → Lent T → Account T Closed → Account T Closed
  account_open mode unopened a = record a {
    lent = held (record { value = a.initial; parent_drop_mode = mode });
  }
  account_open mode lent a = a

  abbrev pub account_drop : Lent T → Account T Closed → Account T Closed
  account_drop (held guard) a = record a {
    delivered = sent (close_value guard.value);
    lent = dropping guard.parent_drop_mode;
  }
  account_drop lent a = a

  abbrev pub account_lose : Lent T → Account T Closed → Account T Closed
  account_lose (held guard) a = record a {
    delivered = lost;
    lent = dropping guard.parent_drop_mode;
  }
  account_lose lent a = a

  abbrev pub account_poll :
      (Option Closed → Option Closed) → Phase Closed → Account T Closed → Account T Closed
  account_poll f open_phase a = record a { in_wait = true }
  account_poll f (sent c) a = record a { in_wait = false; answer = some (f (some c)) }
  account_poll f lost a = record a { in_wait = false; answer = some (f none) }

  abbrev pub account_act : Action T Closed → Account T Closed → Account T Closed
  account_act (open_slot mode) a = elim a.in_wait [ true ↦ a | false ↦ account_open mode a.lent a ]
  account_act (change f) a = record a {
    lent = changed (λ guard. record guard { value = f guard.value }) a.lent;
  }
  account_act delay_flush a = record a {
    lent = changed (λ guard. record guard { parent_drop_mode = wait }) a.lent;
  }
  account_act drop_guard a = account_drop a.lent a
  account_act drop_panics a = account_lose a.lent a
  account_act drop_fields a = record a { lent = fields_dropped a.lent }
  account_act (poll_wait f) a = elim a.answer [
    | some kept ↦ record a { answer = some (f kept) }
    | none ↦ account_poll f a.delivered a
  ]
  account_act cancel_wait a = elim a.in_wait [
    | true ↦ record a { in_wait = false; answer = some none }
    | false ↦ a
  ]

  abbrev pub account_run : List (Action T Closed) → Account T Closed → Account T Closed
  account_run [] a = a
  account_run (x ∷ actions) a = account_run actions (account_act x a)

  -- Without an answer, what the guard has sent by then is given.
  abbrev pub closing : Option (Option Closed) → Phase Closed → Closing Closed
  closing none delivered = closed (received delivered)
  closing (some (some c)) delivered = closed (some c)
  closing (some none) delivered = panicked

  abbrev pub account_close : Account T Closed → Closing Closed
  account_close a = closing a.answer a.delivered
