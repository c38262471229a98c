-- ===== src/KeepAlive/Inv.antt =====
-- What holds of the references between two steps.
use metrique.Prelude.{
  ℕ, ◌+◌, ◌≤◌, ◌<◌, ◌≡◌, Bool, true, false, some, List, ◌==◌, get_elem?, set, total, total-set,
  get_elem-total, if◌then◌else◌,
}
use metrique.KeepAlive.{
  Parent, owned, value_dropped, freeing_parent, Guard, held, freeing_guard, DropAll, lingering,
  upgraded, calling, letting_go, freeing_all, KeepAlive,
}

-- Who refers to the value: the parent itself, and whoever holds the payload.
abbrev pub owns : Parent → ℕ
owns owned = 1
owns _ = 0

abbrev pub parent_frees : Parent → ℕ
parent_frees freeing_parent = 1
parent_frees _ = 0

abbrev pub frees : Guard → ℕ
frees freeing_guard = 1
frees _ = 0

abbrev pub holds : DropAll → ℕ
holds calling = 1
holds freeing_all = 1
holds _ = 0

-- Who refers to the slot.
abbrev pub has_slot : Parent → ℕ
has_slot owned = 1
has_slot value_dropped = 1
has_slot _ = 0

abbrev pub guards_value : Guard → ℕ
guards_value held = 1
guards_value _ = 0

abbrev pub is_strong : DropAll → ℕ
is_strong upgraded = 1
is_strong calling = 1
is_strong letting_go = 1
is_strong _ = 0

-- Which drops of a `DropAll` have begun, and which have been past `take` or a failed `upgrade`.
abbrev pub has_begun : DropAll → ℕ
has_begun lingering = 0
has_begun _ = 1

abbrev pub has_taken : DropAll → ℕ
has_taken lingering = 0
has_taken upgraded = 0
has_taken _ = 1

abbrev pub payloads : Bool → ℕ
payloads is_present = if is_present then 1 else 0

-- How many hold the payload, the slot included.
abbrev pub holders : KeepAlive → ℕ
holders s =
    payloads s.is_present + total frees s.guards + total holds s.drop_alls + parent_frees s.parent

pub record Inv (s : KeepAlive) : Type 0 where
  pub values : s.value_count ≡ owns s.parent + holders s
  pub one_holder : holders s ≤ 1
  pub slots :
      s.slot_count ≡ has_slot s.parent + total guards_value s.guards + total is_strong s.drop_alls
  pub emptied : s.slot_count ≡ 0 → s.is_present ≡ false
  pub once : s.releases ≡ (if s.value_count == 0 then 1 else 0)
  -- A `DropAll` leaves the slot empty, and nothing else empties it while it is referred to.
  pub taken : 0 < total has_taken s.drop_alls → s.is_present ≡ false
  pub kept : total has_begun s.drop_alls ≡ 0 → 0 < s.slot_count → s.is_present ≡ true

-- What the step of a guard from `g` to `g'` changes in the sums over the guards.
pub guard_moved :
    (gs : List Guard) (i : ℕ) (g g' : Guard)
    → get_elem? gs i ≡ some g
    → (total frees (set gs i g') + frees g ≡ total frees gs + frees g')
      × (total guards_value (set gs i g') + guards_value g
          ≡ total guards_value gs + guards_value g')
guard_moved gs i g g' h = (total-set frees gs i g g' h, total-set guards_value gs i g g' h)

-- The same for a `DropAll`.
pub drop_all_moved :
    (ds : List DropAll) (i : ℕ) (d d' : DropAll)
    → get_elem? ds i ≡ some d
    → (total holds (set ds i d') + holds d ≡ total holds ds + holds d')
      × (total is_strong (set ds i d') + is_strong d ≡ total is_strong ds + is_strong d')
      × (total has_begun (set ds i d') + has_begun d ≡ total has_begun ds + has_begun d')
      × (total has_taken (set ds i d') + has_taken d ≡ total has_taken ds + has_taken d')
      × (has_begun d ≤ total has_begun ds)
drop_all_moved ds i d d' h = (
  total-set holds ds i d d' h,
  total-set is_strong ds i d d' h,
  total-set has_begun ds i d d' h,
  total-set has_taken ds i d d' h,
  get_elem-total has_begun ds i d h,
)
