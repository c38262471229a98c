-- ===== src/KeepAlive.antt =====
-- metrique/src/keep_alive.rs: a parent whose value outlives it while guards do, unless a `DropAll`
-- switches them off. The parent, its guards and its `DropAll`s are dropped on many threads at once,
-- so each drop is cut into its atomic steps.
pub mod Inv
pub mod Steps
pub mod Release
mod Tests
use metrique.Prelude.{
  ℕ, ◌+◌, ◌-◌, Bool, true, false, ◌&&◌, Option, none, some, List, [], ◌∷◌, ◌++◌, ◌==◌, get_elem?,
  set, if◌then◌else◌,
}

-- Where the drop of the parent stands. Its fields are dropped in their order: `value`, then
-- `guard`, and then the payload when that was the last reference to a full slot.
pub data Parent : Type 0 where
  owned : Parent
  value_dropped : Parent
  freeing_parent : Parent
  parent_gone : Parent

-- Where the drop of a guard stands: held, about to drop the payload, or dropped.
pub data Guard : Type 0 where
  held : Guard
  freeing_guard : Guard
  guard_gone : Guard

-- Where the drop of a `DropAll` stands: held, before `take`, before the call of what it took,
-- before it lets go of the slot, about to drop the payload, or dropped.
pub data DropAll : Type 0 where
  lingering : DropAll
  upgraded : DropAll
  calling : DropAll
  letting_go : DropAll
  freeing_all : DropAll
  finished : DropAll

-- The counts of strong references to the value and to the slot of the guards, whether the slot is
-- full, and who refers to them. `releases` counts how often the value was dropped.
pub record KeepAlive : Type 0 where
  pub value_count : ℕ
  pub releases : ℕ
  pub is_present : Bool
  pub slot_count : ℕ
  pub parent : Parent
  pub guards : List Guard
  pub drop_alls : List DropAll

-- `Parent::new`: the payload in the slot holds the second reference to the value.
unfoldable pub new : KeepAlive
new = record {
  value_count = 2;
  releases = 0;
  is_present = true;
  slot_count = 1;
  parent = owned;
  guards = [];
  drop_alls = [];
}

-- The drop of a reference to the value: the last one drops the value.
unfoldable pub drop_value : KeepAlive → KeepAlive
drop_value s = record s {
  value_count = s.value_count - 1;
  releases = if s.value_count == 1 then s.releases + 1 else s.releases;
}

-- The drop of a reference to the slot: the last one drops what is in it, if anything.
unfoldable pub drop_slot : KeepAlive → KeepAlive
drop_slot s = record s {
  slot_count = s.slot_count - 1;
  is_present = if s.slot_count == 1 then false else s.is_present;
}

abbrev pub frees_payload : KeepAlive → Bool
frees_payload s = (s.slot_count == 1) && s.is_present

unfoldable pub parent_step : Parent → KeepAlive → KeepAlive
unfolding drop_value drop_slot
parent_step owned s = record (drop_value s) { parent = value_dropped }
parent_step value_dropped s = record (drop_slot s) {
  parent = if frees_payload s then freeing_parent else parent_gone;
}
parent_step freeing_parent s = record (drop_value s) { parent = parent_gone }
parent_step parent_gone s = s

unfoldable pub guard_step : ℕ → Guard → KeepAlive → KeepAlive
unfolding drop_value drop_slot
guard_step i held s = record (drop_slot s) {
  guards = set s.guards i (if frees_payload s then freeing_guard else guard_gone);
}
guard_step i freeing_guard s = record (drop_value s) { guards = set s.guards i guard_gone }
guard_step i guard_gone s = s

-- `DropAll::drop`: `upgrade` fails once no strong reference to the slot is left.
unfoldable pub drop_all_step : ℕ → DropAll → KeepAlive → KeepAlive
unfolding drop_value drop_slot
drop_all_step i lingering s =
    if s.slot_count == 0
    then record s { drop_alls = set s.drop_alls i finished }
    else record s { slot_count = s.slot_count + 1; drop_alls = set s.drop_alls i upgraded }
drop_all_step i upgraded s = record s {
  is_present = false;
  drop_alls = set s.drop_alls i (if s.is_present then calling else letting_go);
}
drop_all_step i calling s = record (drop_value s) { drop_alls = set s.drop_alls i letting_go }
drop_all_step i letting_go s = record (drop_slot s) {
  drop_alls = set s.drop_alls i (if frees_payload s then freeing_all else finished);
}
drop_all_step i freeing_all s = record (drop_value s) { drop_alls = set s.drop_alls i finished }
drop_all_step i finished s = s

-- Only who has the parent can make guards.
unfoldable pub new_guard : Parent → KeepAlive → KeepAlive
new_guard owned s = record s { slot_count = s.slot_count + 1; guards = s.guards ++ held ∷ [] }
new_guard _ s = s

unfoldable pub force_drop_guard : Parent → KeepAlive → KeepAlive
force_drop_guard owned s = record s { drop_alls = s.drop_alls ++ lingering ∷ [] }
force_drop_guard _ s = s

unfoldable pub guard_step_at : ℕ → Option Guard → KeepAlive → KeepAlive
unfolding guard_step
guard_step_at i none s = s
guard_step_at i (some g) s = guard_step i g s

unfoldable pub drop_all_step_at : ℕ → Option DropAll → KeepAlive → KeepAlive
unfolding drop_all_step
drop_all_step_at i none s = s
drop_all_step_at i (some d) s = drop_all_step i d s

-- What can happen next; the drops go on step by step.
pub data Action : Type 0 where
  make_guard : Action
  make_drop_all : Action
  drop_parent : Action
  drop_guard : ℕ → Action
  drop_drop_all : ℕ → Action

unfoldable pub act : Action → KeepAlive → KeepAlive
unfolding new_guard force_drop_guard parent_step guard_step_at drop_all_step_at
act make_guard s = new_guard s.parent s
act make_drop_all s = force_drop_guard s.parent s
act drop_parent s = parent_step s.parent s
act (drop_guard i) s = guard_step_at i (get_elem? s.guards i) s
act (drop_drop_all i) s = drop_all_step_at i (get_elem? s.drop_alls i) s

unfoldable pub run : List Action → KeepAlive → KeepAlive
run [] s = s
run (a ∷ actions) s = run actions (act a s)
