-- ===== src/Wheel/Whole.antt =====
-- Hierarchies that have their five wheels, and the places of the timers.
use native.Mathlib.Nat.{mod-lt}
use poseidon.Prelude.{
  ℕ, ◌+◌, ◌-◌, ◌/◌, ◌%◌, ◌^◌, ◌≤◌, ◌<◌, ◌≡◌, refl, ◌∙◌, inl, inr, Bool, true, false, not, ◌&&◌,
  ◌||◌, List, [], ◌∷◌, ◌++◌, arith, leb, ◌==◌, if◌then◌else◌, Bool-cases, length, get_or, set, drop,
  length-set,
}
use poseidon.Prelude.Entries.{count, count-append, sum_of, sum_of-set, sum_of-get}
use poseidon.Wheel.{
  Timer, Wheel, Step, Callback, Hierarchy, no_wheel, set_timer, maintenance, advance, skip_zeros,
  place, delay_of,
}

-- The callback of the user `id`.
abbrev pub is_user : ℕ → Callback → Bool
is_user id (Callback.on_tick k) = false
is_user id (Callback.user x) = x == id

-- A timer that will call it.
abbrev pub is_pending : ℕ → Timer → Bool
is_pending id timer = is_user id timer.cb && not timer.removed

-- A plan with a wheel that does not exist.
abbrev pub is_lost : List Step → Bool
is_lost [] = false
is_lost (step ∷ plan) = leb 5 step.wheel || is_lost plan

-- The number of timers that pass a test, in a wheel and in all wheels.
abbrev pub on_wheel : (Timer → Bool) → Wheel → ℕ
on_wheel test wheel = sum_of (count test) wheel.slots

abbrev pub on_wheels : (Timer → Bool) → Hierarchy → ℕ
on_wheels test h = sum_of (on_wheel test) h.wheels

-- The calls that were given to the pool.
abbrev pub called : ℕ → Hierarchy → ℕ
called id h = count (is_user id) h.jobs

-- Five wheels with slots.
abbrev pub has_no_slots : Wheel → ℕ
has_no_slots wheel = if length wheel.slots == 0 then 1 else 0

pub record IsWhole (h : Hierarchy) : Type 0 where
  pub five : length h.wheels ≡ 5
  pub slotted : sum_of has_no_slots h.wheels ≡ 0

pub whole-slots :
    (h : Hierarchy) (k : ℕ) → IsWhole h → k < 5 → 0 < length (get_or h.wheels k no_wheel).slots
whole-slots h k whole less =
    let fact : has_no_slots (get_or h.wheels k no_wheel) ≤ sum_of has_no_slots h.wheels =
      sum_of-get has_no_slots h.wheels k no_wheel (omega (arith, whole.five)) in
    ground (arith, fact, whole.slotted)

pub set_wheel-IsWhole :
    (h : Hierarchy) (k : ℕ) (wheel : Wheel)
    → IsWhole h
    → k < 5
    → 0 < length wheel.slots
    → IsWhole (record h { wheels = set h.wheels k wheel })
set_wheel-IsWhole h k wheel whole less some_slots = record {
  five = length-set h.wheels k wheel ∙ whole.five;
  slotted = ground (
    arith,
    sum_of-set has_no_slots h.wheels k wheel no_wheel (omega (arith, whole.five)),
    whole.slotted,
  );
}

length-set_timer :
    (wheel : Wheel) (timer : Timer) → length (set_timer wheel timer).slots ≡ length wheel.slots
unfolding set_timer
length-set_timer wheel timer = length-set wheel.slots _ _

pub length-advance : (wheel : Wheel) → length (advance wheel).1.slots ≡ length wheel.slots
unfolding advance
length-advance wheel = elim (Bool-cases wheel.stopped) [
  | inl e ↦ rw e refl
  | inr e ↦ rw e (length-set wheel.slots _ _)
]

pub place-IsWhole :
    (h : Hierarchy) (k : ℕ) (timer : Timer) → IsWhole h → k < 5 → IsWhole (place h k timer)
place-IsWhole h k timer whole less =
    set_wheel-IsWhole h k _ whole less (
      omega
        (arith, length-set_timer (get_or h.wheels k no_wheel) timer, whole-slots h k whole less))

-- A test that does not look at the circle, and that no removed timer passes.
module _ (test : Timer → Bool)
    (blind : (t : Timer) (c : ℕ) → test (record t { circle = c }) ≡ test t)
    (dead : (t : Timer) → t.removed ≡ true → test t ≡ false) where
  on_wheel-set_timer :
      (wheel : Wheel) (timer : Timer)
      → 0 < length wheel.slots
      → on_wheel test (set_timer wheel timer) ≡ on_wheel test wheel + (if test timer then 1 else 0)
  unfolding set_timer
  on_wheel-set_timer wheel timer h =
      let steps : ℕ = delay_of timer.plan in
      let position : ℕ = (wheel.position + steps) % length wheel.slots in
      let circle : ℕ = (steps + (2 ^ 64 - 1)) % 2 ^ 64 / length wheel.slots % 2 ^ 32 in
      let old : List Timer = get_or wheel.slots position [] in
      let new : Timer = record timer { circle = circle } in
      ground (
        arith,
        sum_of-set (count test) wheel.slots position (old ++ new ∷ []) []
            (mod-lt (wheel.position + steps) h),
        count-append test old (new ∷ []),
        blind timer circle,
      )

  count-maintenance :
      (list : List Timer)
      → count test (maintenance list).0 + count test (maintenance list).1 ≡ count test list
  unfolding maintenance
  count-maintenance [] = refl
  count-maintenance (t ∷ list) =
      ground (arith, count-maintenance list, dead t, blind t (t.circle - 1))

  pub on_wheel-advance :
      (wheel : Wheel)
      → 0 < length wheel.slots
      → count test (advance wheel).0 + on_wheel test (advance wheel).1 ≡ on_wheel test wheel
  unfolding advance
  on_wheel-advance wheel h = elim (Bool-cases wheel.stopped) [
    | inl e ↦ rw e (omega arith)
    | inr e ↦
        let position : ℕ = (wheel.position + 1) % length wheel.slots in
        rw e (
          omega (
            arith,
            count-maintenance (get_or wheel.slots position []),
            sum_of-set (count test) wheel.slots position
                (maintenance (get_or wheel.slots position [])).1 [] (mod-lt (wheel.position + 1) h),
          ))
  ]

  pub on_wheels-place :
      (h : Hierarchy) (k : ℕ) (timer : Timer)
      → IsWhole h
      → k < 5
      → on_wheels test (place h k timer) ≡ on_wheels test h + (if test timer then 1 else 0)
  on_wheels-place h k timer whole less =
      let wheel : Wheel = get_or h.wheels k no_wheel in
      omega (
        arith,
        on_wheel-set_timer wheel timer (whole-slots h k whole less),
        sum_of-set (on_wheel test) h.wheels k (set_timer wheel timer) no_wheel
            (omega (arith, whole.five)),
      )

pub is_lost-skip_zeros :
    (plan : List Step) → is_lost plan ≡ false → is_lost (skip_zeros plan) ≡ false
unfolding skip_zeros
is_lost-skip_zeros [] h = refl
is_lost-skip_zeros (step ∷ plan) h = ground (arith, h, is_lost-skip_zeros plan)

pub is_lost-drop : (plan : List Step) → is_lost plan ≡ false → is_lost (drop 1 plan) ≡ false
is_lost-drop [] h = refl
is_lost-drop (step ∷ plan) h = ground (arith, h)

-- A timer whose plan has a wheel that does not exist.
abbrev pub strays : Timer → Bool
strays timer = is_lost timer.plan && not timer.removed

pub blind_strays : (t : Timer) (c : ℕ) → strays (record t { circle = c }) ≡ strays t
blind_strays t c = refl

pub dead_strays : (t : Timer) → t.removed ≡ true → strays t ≡ false
dead_strays t h = ground (arith, h)
