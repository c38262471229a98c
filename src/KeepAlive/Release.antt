-- ===== src/KeepAlive/Release.antt =====
-- When the value of a parent is dropped.
use metrique.Prelude.{ℕ, ◌≤◌, ◌<◌, ◌≡◌, List, [], ◌∷◌, total, arith}
use metrique.KeepAlive.{owned, parent_gone, Guard, guard_gone, DropAll, lingering, finished, Action}
use metrique.KeepAlive.Inv.{frees, holds, guards_value, is_strong, has_begun, has_taken}
use metrique.KeepAlive.Steps.{reached, reached-Inv}

-- The drops that are under way, and those of a `DropAll` that are complete.
abbrev pub undropped : Guard → ℕ
undropped guard_gone = 0
undropped _ = 1

abbrev pub midway : DropAll → ℕ
midway lingering = 0
midway finished = 0
midway _ = 1

abbrev pub completed : DropAll → ℕ
completed finished = 1
completed _ = 0

guards_gone :
    (gs : List Guard)
    → (total frees gs ≤ total undropped gs) × (total guards_value gs ≤ total undropped gs)
guards_gone [] = ground arith
guards_gone (g ∷ gs) = ground (arith, guards_gone gs)

none_midway :
    (ds : List DropAll)
    → (total holds ds ≤ total midway ds)
      × (total is_strong ds ≤ total midway ds)
      × (total completed ds ≤ total has_taken ds)
none_midway [] = ground arith
none_midway (d ∷ ds) = ground (arith, none_midway ds)

-- Whatever is dropped, and in whatever order and interleaving, the value is dropped at most once, and
-- not while the parent holds it.
pub released_once :
    (actions : List Action)
    → ((reached actions).releases ≤ 1)
      × ((reached actions).parent ≡ owned → (reached actions).releases ≡ 0)
released_once actions = let v = reached-Inv actions in ground arith

-- Once the parent and every guard have been dropped, and no drop of a `DropAll` is under way, the
-- value has been dropped, once, however many `DropAll`s are still held.
pub released_after_guards :
    (actions : List Action)
    → (reached actions).parent ≡ parent_gone
    → total undropped (reached actions).guards ≡ 0
    → total midway (reached actions).drop_alls ≡ 0
    → (reached actions).releases ≡ 1
released_after_guards actions gone none_left calm =
    let v = reached-Inv actions in
    ground (arith, guards_gone (reached actions).guards, none_midway (reached actions).drop_alls)

-- Once the parent and one `DropAll` have been dropped, and no drop is under way, the value has been
-- dropped, once, however many guards are still held.
pub released_by_drop_all :
    (actions : List Action)
    → (reached actions).parent ≡ parent_gone
    → 0 < total completed (reached actions).drop_alls
    → total midway (reached actions).drop_alls ≡ 0
    → total frees (reached actions).guards ≡ 0
    → (reached actions).releases ≡ 1
released_by_drop_all actions gone some_done calm idle =
    let v = reached-Inv actions in ground (arith, none_midway (reached actions).drop_alls)

-- While a guard is held and the drop of no `DropAll` has begun, the value is not dropped.
pub guard_keeps_value :
    (actions : List Action)
    → 0 < total guards_value (reached actions).guards
    → total has_begun (reached actions).drop_alls ≡ 0
    → (reached actions).releases ≡ 0
guard_keeps_value actions some_held none_begun = let v = reached-Inv actions in ground arith
