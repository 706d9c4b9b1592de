-- ===== src/Wheel/Tests.antt =====
-- Wheels of eight slots, as the daemon makes them.
use poseidon.Prelude.{ℕ, ◌-◌, ◌≡◌, refl, false, [], ◌∷◌, arith, get_or}
use poseidon.Prelude.Entries.{find}
use poseidon.Wheel.{
  Duration, Callback, Timer, Wheel, Hierarchy, create, set_timer, advance, create_hierarchy,
  set_hierarchical_timer, rectify, carry_up, plan_of, cancel_timer,
}
use poseidon.Wheel.Visit.{In}
use poseidon.Wheel.Due.{ticks, due_after, set_timer_lem}
use poseidon.Wheel.Whole.{IsWhole, called}
use poseidon.Wheel.Conserve.{balance, tick_all, balance-tick_all}
use poseidon.Wheel.Cancel.{balance-cancel}

abbrev eight : Wheel
unfolding create
eight = create 1 8

abbrev later : Timer
later = record {
  timer_id = 5;
  plan = record { delay = 20; wheel = 0 } ∷ [];
  cb = Callback.user 5;
  removed = false;
  circle = 0;
}

set_timer_lem_example :
    ((t : Timer) × (s : ℕ) × (t.timer_id ≡ 5)
      × In t (get_or (ticks 11 (set_timer eight later)).slots s []))
    × ((t : Timer) × (t.timer_id ≡ 5)
        × In t (advance (ticks (due_after 8 20 - 1) (set_timer eight later))).0)
unfolding eight
set_timer_lem_example =
    set_timer_lem 8 eight later 11 refl (omega arith) refl refl (omega arith) (omega arith)
      (omega arith)

abbrev two_hours : Duration
two_hours = record { days = 0; hours = 0; minutes = 119; seconds = 59; milliseconds = 1000 }

abbrev one_timer : Hierarchy
unfolding create create_hierarchy set_hierarchical_timer set_timer rectify carry_up plan_of
one_timer = (set_hierarchical_timer (create_hierarchy 8) two_hours).1

one_timer-IsWhole : IsWhole one_timer
unfolding one_timer
one_timer-IsWhole = record { five = refl; slotted = refl }

balance-tick_all_example : balance 1 (tick_all (0 ∷ 2 ∷ 0 ∷ []) one_timer) ≡ balance 1 one_timer
unfolding one_timer
balance-tick_all_example =
    balance-tick_all 1 (0 ∷ 2 ∷ 0 ∷ []) one_timer one_timer-IsWhole refl
      (omega arith, (omega arith, (omega arith, refl)))

balance-cancel_example :
    balance 1 (tick_all (0 ∷ 2 ∷ []) (cancel_timer one_timer 1)) ≡ called 1 one_timer
unfolding one_timer find
balance-cancel_example =
    balance-cancel 1 (0 ∷ 2 ∷ []) one_timer 0 one_timer-IsWhole refl refl refl
      (omega arith, (omega arith, refl))
