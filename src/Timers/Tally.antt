-- ===== src/Timers/Tally.antt =====
-- What a stopwatch promises: a total, and when each guard that has not ended was started.
use metrique.Prelude.{ℕ, ◌+◌, Option, none, some, List, [], ◌∷◌, ◌++◌, get_elem?, set}
use metrique.Timers.{
  elapsed, unwrap_or_default, Ending, dropping, stopping, overwriting, discarding, Action, pass,
  start_guard, start_owned_guard, end_start, end_start_owned, clear_all,
}

pub record Tally : Type 0 where
  pub time : ℕ
  pub total : Option ℕ
  pub borrowed : Option ℕ
  pub owned : List (Option ℕ)
  pub returned : List (Option ℕ)

-- What the end of a guard that ran for a time makes of the total.
abbrev pub tallied : Ending → ℕ → Option ℕ → Option ℕ
tallied dropping time total = some (unwrap_or_default total + time)
tallied stopping time total = some (unwrap_or_default total + time)
tallied overwriting time total = some time
tallied discarding time total = total

abbrev pub reported : Ending → ℕ → List (Option ℕ) → List (Option ℕ)
reported stopping time returned = returned ++ some time ∷ []
reported _ time returned = returned

abbrev pub tally_end_start : Ending → Option ℕ → Tally → Tally
tally_end_start e none t = t
tally_end_start e (some start) t = record t {
  total = tallied e (elapsed t.time start) t.total;
  returned = reported e (elapsed t.time start) t.returned;
  borrowed = none;
}

abbrev pub tally_end_owned : Ending → ℕ → Option (Option ℕ) → Tally → Tally
tally_end_owned e i (some (some start)) t = record t {
  total = tallied e (elapsed t.time start) t.total;
  returned = reported e (elapsed t.time start) t.returned;
  owned = set t.owned i none;
}
tally_end_owned e i _ t = t

abbrev pub if_free : {A : Type 0} → Option ℕ → A → A → A
if_free none a b = a
if_free (some start) a b = b

abbrev pub tally_act : Action → Tally → Tally
tally_act (pass n) t = record t { time = t.time + n }
tally_act start_guard t = if_free t.borrowed (record t { borrowed = some t.time }) t
tally_act start_owned_guard t =
    if_free t.borrowed (record t { owned = t.owned ++ some t.time ∷ [] }) t
tally_act (end_start e) t = tally_end_start e t.borrowed t
tally_act (end_start_owned e i) t = tally_end_owned e i (get_elem? t.owned i) t
tally_act clear_all t = if_free t.borrowed (record t { total = none }) t

abbrev pub tally_run : List Action → Tally → Tally
tally_run [] t = t
tally_run (a ∷ actions) t = tally_run actions (tally_act a t)

abbrev pub new_tally : ℕ → Tally
new_tally now = record { time = now; total = none; borrowed = none; owned = []; returned = [] }
