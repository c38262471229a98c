-- ===== src/Slot.antt =====
-- metrique/src/slot.rs: a value that is lent to another task by a guard, and comes back to its parent
-- when the guard is dropped.
pub mod Account
pub mod Refine
pub mod Delivery
mod Tests
use metrique.Prelude.{Bool, true, false, not, ◌≡◌, Option, none, some, List, [], ◌∷◌, if◌then◌else◌}

-- What has become of the sender of a channel: it is there, has sent, or was dropped without.
pub data Phase (A : Type 0) : Type 0 where
  open_phase : Phase A
  sent : A → Phase A
  lost : Phase A

pub data Poll (A : Type 0) : Type 0 where
  pending : Poll A
  ready : Option A → Poll A

abbrev pub received : {A : Type 0} → Phase A → Option A
received open_phase = none
received (sent a) = some a
received lost = none

abbrev pub polled : {A : Type 0} → Phase A → Poll A
polled open_phase = pending
polled (sent a) = ready (some a)
polled lost = ready none

-- `tokio::sync::oneshot`. A channel is told by the phase of its sender: `try_recv` and the future of
-- a receiver find what was sent, and `ok` maps their errors to none.
pub record Oneshot (A : Type 0) : Type 1 where
  pub Channel : Type 0
  pub channel : Channel
  pub send : A → Channel → Channel
  pub drop_sender : Channel → Channel
  pub try_recv : Channel → Option A
  pub poll : Channel → Poll A × Channel
  pub phase : Channel → Phase A
  pub phase-channel : phase channel ≡ open_phase
  pub phase-send : (a : A) (c : Channel) → phase c ≡ open_phase → phase (send a c) ≡ sent a
  pub phase-drop_sender : (c : Channel) → phase c ≡ open_phase → phase (drop_sender c) ≡ lost
  pub try_recv_lem : (c : Channel) → try_recv c ≡ received (phase c)
  pub poll_lem : (c : Channel) → (poll c).0 ≡ polled (phase c)
  pub phase-poll : (c : Channel) → phase (poll c).1 ≡ phase c

-- `Wait` holds a `FlushGuard` of the parent.
pub data OnParentDrop : Type 0 where
  wait : OnParentDrop
  discard : OnParentDrop

pub record SlotGuard (T : Type 0) : Type 0 where
  pub value : T
  pub parent_drop_mode : OnParentDrop

-- Whether the `rx` is there, the receiver being an end of the channel.
pub record Slot (T Closed : Type 0) : Type 0 where
  pub tx : Option (SlotGuard T)
  pub rx : Bool
  pub data_field : Option Closed

-- What the drop of a guard comes to: it is not out yet or not dropped, its value is sent and the
-- mode is yet to be dropped, or it is gone.
pub data Lent (T : Type 0) : Type 0 where
  unopened : Lent T
  held : SlotGuard T → Lent T
  dropping : OnParentDrop → Lent T
  gone : Lent T

unfoldable pub changed : {T : Type 0} → (SlotGuard T → SlotGuard T) → Lent T → Lent T
changed f (held guard) = held (f guard)
changed f unopened = unopened
changed f (dropping mode) = dropping mode
changed f gone = gone

unfoldable pub fields_dropped : {T : Type 0} → Lent T → Lent T
fields_dropped (dropping mode) = gone
fields_dropped (held guard) = held guard
fields_dropped unopened = unopened
fields_dropped gone = gone

-- `CloseValue::close` of the slot may fail to return.
pub data Closing (Closed : Type 0) : Type 0 where
  closed : Option Closed → Closing Closed
  panicked : Closing Closed

-- What is done with a slot and its guard. `wait_for_data` borrows the slot until it returns or is
-- cancelled; a poll of it carries what the caller does to the data through the reference, when it
-- returns that. A later write through the same reference is one more poll, since `wait_for_data` then
-- returns it at once. `drop_panics` is a drop of the guard in which the value's own `close` panics.
pub data Action (T Closed : Type 0) : Type 0 where
  open_slot : OnParentDrop → Action T Closed
  change : (T → T) → Action T Closed
  delay_flush : Action T Closed
  drop_guard : Action T Closed
  drop_panics : Action T Closed
  drop_fields : Action T Closed
  poll_wait : (Option Closed → Option Closed) → Action T Closed
  cancel_wait : Action T Closed

module _ {T Closed : Type 0} (close_value : T → Closed) (oneshot : Oneshot Closed) where
  open oneshot use {Channel, channel, send, drop_sender, try_recv, poll}

  -- `waiting` is whether the future of `wait_for_data` holds the receiver.
  pub record World : Type 0 where
    pub slot : Slot T Closed
    pub channel : Channel
    pub lent : Lent T
    pub waiting : Bool

  unfoldable pub new : T → World
  new value = record {
    slot = record {
      tx = some (record { value = value; parent_drop_mode = discard });
      rx = true;
      data_field = none;
    };
    channel = channel;
    lent = unopened;
    waiting = false;
  }

  -- `Slot::open`. Only the guard that was there is lent.
  unfoldable pub open_with : OnParentDrop → World → World
  open_with mode w = elim w.slot.tx [
    | none ↦ w
    | some guard ↦ record w {
      slot = record w.slot { tx = none };
      lent = held (record guard { parent_drop_mode = mode });
    }
  ]

  -- `SlotGuard::drop`: the value is sent, and then the fields are dropped.
  unfoldable pub drop_held : Lent T → World → World
  drop_held (held guard) w = record w {
    channel = send (close_value guard.value) w.channel;
    lent = dropping guard.parent_drop_mode;
  }
  drop_held lent w = w

  unfoldable pub drop_failing : Lent T → World → World
  drop_failing (held guard) w = record w {
    channel = drop_sender w.channel;
    lent = dropping guard.parent_drop_mode;
  }
  drop_failing lent w = w

  -- `wait_for_value`, polled once, and the data with what the caller does to it.
  unfoldable pub poll_receiver : (Option Closed → Option Closed) → World → World
  poll_receiver f w =
      let (p, c) = poll w.channel in
      elim p [
        | pending ↦ record w { channel = c }
        | ready v ↦ record w {
          channel = c;
          slot = record w.slot { data_field = f v };
          waiting = false;
        }
      ]

  -- `wait_for_data`, polled: the first poll takes the receiver, if it is there. What it returns is a
  -- mutable reference to the data, to which the caller applies `f`.
  unfoldable pub poll_wait_for_data : (Option Closed → Option Closed) → World → World
  unfolding poll_receiver
  poll_wait_for_data f w = elim w.waiting [
    | true ↦ poll_receiver f w
    | false ↦ elim w.slot.rx [
      | true ↦ poll_receiver f (record w { slot = record w.slot { rx = false }; waiting = true })
      | false ↦ record w { slot = record w.slot { data_field = f w.slot.data_field } }
    ]
  ]

  unfoldable pub act : Action T Closed → World → World
  unfolding open_with drop_held drop_failing changed fields_dropped poll_wait_for_data
  act (open_slot mode) w = elim w.waiting [ true ↦ w | false ↦ open_with mode w ]
  act (change f) w = record w {
    lent = changed (λ guard. record guard { value = f guard.value }) w.lent;
  }
  act delay_flush w = record w {
    lent = changed (λ guard. record guard { parent_drop_mode = wait }) w.lent;
  }
  act drop_guard w = drop_held w.lent w
  act drop_panics w = drop_failing w.lent w
  act drop_fields w = record w { lent = fields_dropped w.lent }
  act (poll_wait f) w = poll_wait_for_data f w
  act cancel_wait w = record w { waiting = false }

  unfoldable pub run : List (Action T Closed) → World → World
  unfolding act
  run [] w = w
  run (a ∷ actions) w = run actions (act a w)

  -- `CloseValue for Slot`, and the state that its match calls unreachable.
  unfoldable pub close_with : Option Closed → Bool → Channel → Closing Closed
  close_with (some d) rx c = closed (some d)
  close_with none true c = closed (try_recv c)
  close_with none false c = panicked

  unfoldable pub close : World → Closing Closed
  unfolding close_with
  close w = close_with w.slot.data_field w.slot.rx w.channel

  -- `LazySlot`, which makes its slot when it is opened: what it is after `open`, and its close.
  unfoldable pub open_lazy : T → OnParentDrop → Option World → Option World
  unfolding new open_with
  open_lazy initial_value mode none = some (open_with mode (new initial_value))
  open_lazy initial_value mode (some w) = some w

  unfoldable pub close_lazy : Option World → Closing Closed
  unfolding close
  close_lazy none = closed none
  close_lazy (some w) = close w
