-- ===== src/Wheel/Cancel.antt =====
-- Cancelled timers.
use poseidon.Prelude.{
  ℕ, suc, ◌≤◌, ◌≡◌, ap, ◌∙◌, Bool, not, ◌&&◌, some, List, [], ◌∷◌, ◌++◌, map, arith, ◌==◌, take,
  drop, length-map,
}
use poseidon.Prelude.Entries.{find, count, sum_of-map}
use poseidon.Wheel.{Timer, Wheel, Hierarchy, mark, mark_wheel, cancel_timer}
use poseidon.Wheel.Whole.{
  is_user, is_pending, strays, on_wheel, on_wheels, called, has_no_slots, IsWhole,
}
use poseidon.Wheel.Conserve.{balance, tick_all, AllWheels, balance-tick_all}

-- A timer with the callback of the user `id`, but another identifier.
abbrev pub is_foreign : ℕ → Timer → Bool
is_foreign id timer = is_user id timer.cb && not (timer.timer_id == id)

module _ (id : ℕ) where
  count-mark-pending :
      (list : List Timer) → count (is_pending id) (map (mark id) list) ≤ count (is_foreign id) list
  unfolding mark
  count-mark-pending [] = omega arith
  count-mark-pending (t ∷ list) = ground (arith, count-mark-pending list)

  count-mark-strays : (list : List Timer) → count strays (map (mark id) list) ≤ count strays list
  unfolding mark
  count-mark-strays [] = omega arith
  count-mark-strays (t ∷ list) = ground (arith, count-mark-strays list)

  on_wheel-mark-pending :
      (w : Wheel) → on_wheel (is_pending id) (mark_wheel id w) ≤ on_wheel (is_foreign id) w
  unfolding mark_wheel
  on_wheel-mark-pending w = sum_of-map _ _ (map (mark id)) w.slots count-mark-pending

  on_wheel-mark-strays : (w : Wheel) → on_wheel strays (mark_wheel id w) ≤ on_wheel strays w
  unfolding mark_wheel
  on_wheel-mark-strays w = sum_of-map _ _ (map (mark id)) w.slots count-mark-strays

  has_no_slots-mark : (w : Wheel) → has_no_slots (mark_wheel id w) ≤ has_no_slots w
  unfolding mark_wheel
  has_no_slots-mark w = ground (arith, length-map (map (mark id)) w.slots)

cancel-eq :
    (id : ℕ) (h : Hierarchy) (i : ℕ)
    → find (λ x. x == id) h.timers ≡ some i
    → cancel_timer h id ≡ record h {
      wheels = map (mark_wheel id) h.wheels;
      timers = take i h.timers ++ drop (suc i) h.timers;
    }
unfolding cancel_timer
cancel-eq id h i present = ground (arith, present)

-- In five wheels with slots, with no timer whose plan names another wheel, and where only the
-- timer `id` carries the user callback `id`, after a cancellation of that timer, while it is in
-- the map, and any sequence of ticks, the calls of the callback that were given to the pool and
-- the timers that still carry it are together as many as the calls before the cancellation.
pub balance-cancel :
    (id : ℕ) (ks : List ℕ) (h : Hierarchy) (i : ℕ)
    → IsWhole h
    → on_wheels strays h ≡ 0
    → on_wheels (is_foreign id) h ≡ 0
    → find (λ x. x == id) h.timers ≡ some i
    → AllWheels ks
    → balance id (tick_all ks (cancel_timer h id)) ≡ called id h
balance-cancel id ks h i whole fit own present all =
    let marked : Hierarchy = record h {
      wheels = map (mark_wheel id) h.wheels;
      timers = take i h.timers ++ drop (suc i) h.timers;
    } in
    let whole_marked : IsWhole marked = record {
      five = length-map (mark_wheel id) h.wheels ∙ whole.five;
      slotted = omega (
        arith,
        whole.slotted,
        sum_of-map has_no_slots has_no_slots (mark_wheel id) h.wheels (has_no_slots-mark id),
      );
    } in
    let fits : on_wheels strays marked ≡ 0 = omega (
      arith,
      fit,
      sum_of-map (on_wheel strays) (on_wheel strays) (mark_wheel id) h.wheels
          (on_wheel-mark-strays id),
    ) in
    let silent : on_wheels (is_pending id) marked ≡ 0 = omega (
      arith,
      own,
      sum_of-map (on_wheel (is_pending id)) (on_wheel (is_foreign id)) (mark_wheel id) h.wheels
          (on_wheel-mark-pending id),
    ) in
    ap (λ (x : Hierarchy). balance id (tick_all ks x)) (cancel-eq id h i present)
    ∙ (balance-tick_all id ks marked whole_marked fits all ∙ omega (arith, silent))
