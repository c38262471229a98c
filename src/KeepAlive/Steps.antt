-- ===== src/KeepAlive/Steps.antt =====
-- Every step of a drop keeps the invariant.
use metrique.Prelude.{
  ℕ, ◌≡◌, refl, Option, none, some, List, [], ◌∷◌, get_elem?, total-append, if◌then◌else◌, arith,
}
use metrique.KeepAlive.{
  Parent, owned, value_dropped, freeing_parent, parent_gone, Guard, held, freeing_guard, guard_gone,
  DropAll, lingering, upgraded, calling, letting_go, freeing_all, finished, KeepAlive, new,
  drop_value, drop_slot, frees_payload, parent_step, guard_step, drop_all_step, new_guard,
  force_drop_guard, guard_step_at, drop_all_step_at, Action, make_guard, make_drop_all, drop_parent,
  drop_guard, drop_drop_all, act, run,
}
use metrique.KeepAlive.Inv.{
  Inv, frees, holds, guards_value, is_strong, has_begun, has_taken, guard_moved, drop_all_moved,
}

new-Inv : Inv new
unfolding new
new-Inv = ground arith

parent_step-Inv : (p : Parent) (s : KeepAlive) → s.parent ≡ p → Inv s → Inv (parent_step p s)
unfolding parent_step drop_value drop_slot
parent_step-Inv owned s at v = ground arith
parent_step-Inv value_dropped s at v = ground arith
parent_step-Inv freeing_parent s at v = ground arith
parent_step-Inv parent_gone s at v = v

guard_step-Inv :
    (i : ℕ) (g : Guard) (s : KeepAlive)
    → get_elem? s.guards i ≡ some g
    → Inv s
    → Inv (guard_step i g s)
unfolding guard_step drop_value drop_slot
guard_step-Inv i held s h v =
    let g' : Guard = if frees_payload s then freeing_guard else guard_gone in
    ground (arith, guard_moved s.guards i held g' h)
guard_step-Inv i freeing_guard s h v =
    ground (arith, guard_moved s.guards i freeing_guard guard_gone h)
guard_step-Inv i guard_gone s h v = v

drop_all_step-Inv :
    (i : ℕ) (d : DropAll) (s : KeepAlive)
    → get_elem? s.drop_alls i ≡ some d
    → Inv s
    → Inv (drop_all_step i d s)
unfolding drop_all_step drop_value drop_slot
drop_all_step-Inv i lingering s h v = ground (
  arith,
  drop_all_moved s.drop_alls i lingering finished h,
  drop_all_moved s.drop_alls i lingering upgraded h,
)
drop_all_step-Inv i upgraded s h v =
    let d' : DropAll = if s.is_present then calling else letting_go in
    ground (arith, drop_all_moved s.drop_alls i upgraded d' h)
drop_all_step-Inv i calling s h v =
    ground (arith, drop_all_moved s.drop_alls i calling letting_go h)
drop_all_step-Inv i letting_go s h v =
    let d' : DropAll = if frees_payload s then freeing_all else finished in
    ground (arith, drop_all_moved s.drop_alls i letting_go d' h)
drop_all_step-Inv i freeing_all s h v =
    ground (arith, drop_all_moved s.drop_alls i freeing_all finished h)
drop_all_step-Inv i finished s h v = v

new_guard-Inv : (p : Parent) (s : KeepAlive) → s.parent ≡ p → Inv s → Inv (new_guard p s)
unfolding new_guard
new_guard-Inv owned s at v =
    ground (
      arith,
      total-append frees s.guards (held ∷ []),
      total-append guards_value s.guards (held ∷ []),
    )
new_guard-Inv value_dropped s at v = v
new_guard-Inv freeing_parent s at v = v
new_guard-Inv parent_gone s at v = v

force_drop_guard-Inv :
    (p : Parent) (s : KeepAlive) → s.parent ≡ p → Inv s → Inv (force_drop_guard p s)
unfolding force_drop_guard
force_drop_guard-Inv owned s at v = ground (
  arith,
  total-append holds s.drop_alls (lingering ∷ []),
  total-append is_strong s.drop_alls (lingering ∷ []),
  total-append has_begun s.drop_alls (lingering ∷ []),
  total-append has_taken s.drop_alls (lingering ∷ []),
)
force_drop_guard-Inv value_dropped s at v = v
force_drop_guard-Inv freeing_parent s at v = v
force_drop_guard-Inv parent_gone s at v = v

guard_step_at-Inv :
    (i : ℕ) (g : Option Guard) (s : KeepAlive)
    → get_elem? s.guards i ≡ g
    → Inv s
    → Inv (guard_step_at i g s)
unfolding guard_step_at
guard_step_at-Inv i none s h v = v
guard_step_at-Inv i (some g) s h v = guard_step-Inv i g s h v

drop_all_step_at-Inv :
    (i : ℕ) (d : Option DropAll) (s : KeepAlive)
    → get_elem? s.drop_alls i ≡ d
    → Inv s
    → Inv (drop_all_step_at i d s)
unfolding drop_all_step_at
drop_all_step_at-Inv i none s h v = v
drop_all_step_at-Inv i (some d) s h v = drop_all_step-Inv i d s h v

act-Inv : (a : Action) (s : KeepAlive) → Inv s → Inv (act a s)
unfolding act
act-Inv make_guard s v = new_guard-Inv s.parent s refl v
act-Inv make_drop_all s v = force_drop_guard-Inv s.parent s refl v
act-Inv drop_parent s v = parent_step-Inv s.parent s refl v
act-Inv (drop_guard i) s v = guard_step_at-Inv i (get_elem? s.guards i) s refl v
act-Inv (drop_drop_all i) s v = drop_all_step_at-Inv i (get_elem? s.drop_alls i) s refl v

run-Inv : (actions : List Action) (s : KeepAlive) → Inv s → Inv (run actions s)
unfolding run
run-Inv [] s v = v
run-Inv (a ∷ actions) s v = run-Inv actions (act a s) (act-Inv a s v)

-- What the parent's life comes to, from `Parent::new` on.
abbrev pub reached : List Action → KeepAlive
reached actions = run actions new

pub reached-Inv : (actions : List Action) → Inv (reached actions)
reached-Inv actions = run-Inv actions new new-Inv
