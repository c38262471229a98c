-- ===== src/KeepAlive/Tests.antt =====
-- Runs of a parent with two guards and two `DropAll`s.
use metrique.Prelude.{◌≤◌, ◌≡◌, refl, List, [], ◌∷◌, ◌++◌, total, arith}
use metrique.KeepAlive.{
  owned, parent_gone, Action, make_guard, make_drop_all, drop_parent, drop_guard, drop_drop_all,
  act, run, new,
}
use metrique.KeepAlive.Inv.{frees, guards_value, has_begun}
use metrique.KeepAlive.Release.{
  undropped, midway, completed, released_once, released_after_guards, released_by_drop_all,
  guard_keeps_value,
}
use metrique.KeepAlive.Steps.{reached}

abbrev made : List Action
made = make_guard ∷ make_guard ∷ make_drop_all ∷ make_drop_all ∷ []

-- The parent is dropped before the guards, the last of which drops the payload.
abbrev by_guards : List Action
by_guards = made ++ drop_guard 0 ∷ drop_parent ∷ drop_parent ∷ drop_guard 1 ∷ drop_guard 1 ∷ []

-- Two `DropAll`s race each other and the parent, while a guard stays.
abbrev by_drop_all : List Action
by_drop_all =
    made
    ++ drop_drop_all 0
      ∷ drop_drop_all 1
      ∷ drop_drop_all 0
      ∷ drop_parent
      ∷ drop_drop_all 1
      ∷ drop_drop_all 0
      ∷ drop_parent
      ∷ drop_drop_all 1
      ∷ drop_drop_all 0
      ∷ []

released_once_example :
    ((reached by_guards).releases ≤ 1)
    × ((reached by_guards).parent ≡ owned → (reached by_guards).releases ≡ 0)
released_once_example = released_once by_guards

by_guards_gone : (reached by_guards).parent ≡ parent_gone
unfolding run act new
by_guards_gone = refl

by_guards_none_left : total undropped (reached by_guards).guards ≡ 0
unfolding run act new
by_guards_none_left = refl

by_guards_calm : total midway (reached by_guards).drop_alls ≡ 0
unfolding run act new
by_guards_calm = refl

released_after_guards_example : (reached by_guards).releases ≡ 1
released_after_guards_example =
    released_after_guards by_guards by_guards_gone by_guards_none_left by_guards_calm

by_drop_all_gone : (reached by_drop_all).parent ≡ parent_gone
unfolding run act new
by_drop_all_gone = refl

by_drop_all_two_ended : total completed (reached by_drop_all).drop_alls ≡ 2
unfolding run act new
by_drop_all_two_ended = refl

by_drop_all_calm : total midway (reached by_drop_all).drop_alls ≡ 0
unfolding run act new
by_drop_all_calm = refl

by_drop_all_idle : total frees (reached by_drop_all).guards ≡ 0
unfolding run act new
by_drop_all_idle = refl

released_by_drop_all_example : (reached by_drop_all).releases ≡ 1
released_by_drop_all_example =
    released_by_drop_all by_drop_all by_drop_all_gone (omega (arith, by_drop_all_two_ended))
      by_drop_all_calm by_drop_all_idle

-- The parent is gone and one guard is left.
abbrev one_left : List Action
one_left = made ++ drop_guard 0 ∷ drop_parent ∷ drop_parent ∷ []

one_left_held : total guards_value (reached one_left).guards ≡ 1
unfolding run act new
one_left_held = refl

one_left_begun : total has_begun (reached one_left).drop_alls ≡ 0
unfolding run act new
one_left_begun = refl

guard_keeps_value_example : (reached one_left).releases ≡ 0
guard_keeps_value_example = guard_keeps_value one_left (omega (arith, one_left_held)) one_left_begun
