-- ===== src/Wheel/Due.antt =====
-- When a timer that is set on one wheel is due.
use mathlib.Core.Path.{subst}
use native.Mathlib.Nat.{div-eq_of_lt, le-div_iff_mul-le, mod-lt, mod-add-div', div-le_self}
use poseidon.Prelude.{
  ℕ, zero, suc, ◌+◌, ◌-◌, ◌*◌, ◌/◌, ◌%◌, ◌^◌, ◌≤◌, ◌<◌, ◌≡◌, refl, sym, ap, ◌∙◌, ◌⊎◌, inl, inr,
  false, [], ◌∷◌, ◌++◌, arith, ltb, leb, if◌then◌else◌, ltb→lt, Bool-cases, length, get_or,
  length-set,
}
use poseidon.Prelude.Division.{div_mod_unique}
use poseidon.Wheel.{Timer, Wheel, delay_of, set_timer, advance}
use poseidon.Wheel.Visit.{In, In-snoc, turned}
use poseidon.Wheel.Advance.{IsDue, get_or-set_same, advance_waits, advance_expires, turned_id}

abbrev pub ticks : ℕ → Wheel → Wheel
ticks zero wheel = wheel
ticks (suc k) wheel = ticks k (advance wheel).1

ticks-IsDue :
    (n k e : ℕ) (wheel : Wheel) (t : Timer)
    → IsDue n wheel t (k + suc e)
    → (t' : Timer) × (t'.timer_id ≡ t.timer_id) × IsDue n (ticks k wheel) t' (suc e)
ticks-IsDue n zero e wheel t due = (t, refl, subst (IsDue n wheel t) (omega arith) due)
ticks-IsDue n (suc k) e wheel t due =
    let (t', same, nearer) =
      advance_waits n wheel t (k + e) (subst (IsDue n wheel t) (omega arith) due) in
    let (t'', again, there) =
      ticks-IsDue n k e (advance wheel).1 t'
        (subst (IsDue n (advance wheel).1 t') (omega arith) nearer) in
    (t'', again ∙ same, there)

-- The number of ticks after which a timer with the delay `d` is due on a wheel with `n` slots.
abbrev pub due_after : ℕ → ℕ → ℕ
due_after n d = if leb d n then d else d - n

-- Where a timer is put, and how many ticks the slot is away.
slot_lem :
    (p d n : ℕ)
    → p < n
    → 0 < d
    → (p + ((d - 1) % n + 1) ≡ (p + d) % n) ⊎ (p + ((d - 1) % n + 1) ≡ (p + d) % n + n)
slot_lem p d n h k =
    let r : ℕ = (d - 1) % n + 1 in
    let whole : (d - 1) % n + (d - 1) / n * n ≡ d - 1 = mod-add-div' (d - 1) n in
    let less : (d - 1) % n < n = mod-lt (d - 1) (omega (arith, h)) in
    elim (Bool-cases (ltb (p + r) n)) [
      | inl e ↦
          let (_, slot) =
            div_mod_unique (p + d) n ((d - 1) / n) (p + r) (ltb→lt (p + r) n e)
              (omega (arith, whole, k)) in
          inl (sym slot)
      | inr e ↦
          let over : n ≤ p + r = ground (arith, e) in
          let next : ((d - 1) / n + 1) * n ≡ (d - 1) / n * n + n = grind arith in
          let (_, slot) =
            div_mod_unique (p + d) n ((d - 1) / n + 1) (p + r - n) (omega (arith, less, over, h))
              (omega (arith, whole, k, next, over)) in
          inr (omega (arith, slot, over))
    ]

pos_of_le : (n d : ℕ) → 0 < n → n < d → 0 < (d - 1) / n
pos_of_le n d h k = (le-div_iff_mul-le h).1 (omega arith)

count_lem : (n d : ℕ) → 0 < n → 0 < d → due_after n d ≡ ((d - 1) / n - 1) * n + ((d - 1) % n + 1)
count_lem n d h k =
    let whole : (d - 1) % n + (d - 1) / n * n ≡ d - 1 = mod-add-div' (d - 1) n in
    elim (Bool-cases (leb d n)) [
      | inl e ↦
          let none_left : (d - 1) / n ≡ 0 = div-eq_of_lt (ground (arith, e)) in
          let zero_left : (d - 1) / n * n ≡ 0 = rw none_left (omega arith) in
          let nothing : ((d - 1) / n - 1) * n ≡ 0 = rw none_left (omega arith) in
          ground (arith, e, whole, zero_left, nothing)
      | inr e ↦
          let some_left : 0 < (d - 1) / n = pos_of_le n d h (ground (arith, e)) in
          let next : (d - 1) / n ≡ suc ((d - 1) / n - 1) = omega (arith, some_left) in
          let parts : (d - 1) / n * n ≡ ((d - 1) / n - 1) * n + n =
            ap (λ (x : ℕ). x * n) next ∙ grind arith in
          ground (arith, e, whole, parts)
    ]

-- The state of a timer that was just set.
set_timer-IsDue :
    (n : ℕ) (wheel : Wheel) (timer : Timer)
    → length wheel.slots ≡ n
    → wheel.position < n
    → wheel.stopped ≡ false
    → timer.removed ≡ false
    → 0 < delay_of timer.plan
    → delay_of timer.plan < 2 ^ 31
    → (t : Timer) × (t.timer_id ≡ timer.timer_id)
      × IsDue n (set_timer wheel timer) t (due_after n (delay_of timer.plan))
unfolding set_timer
set_timer-IsDue n wheel timer size turning running waiting some_delay small =
    let d : ℕ = delay_of timer.plan in
    let positive : 0 < n = omega arith in
    let less : d - 1 < 2 ^ 31 = omega (arith, some_delay, small) in
    let before : (d + (2 ^ 64 - 1)) % 2 ^ 64 ≡ d - 1 = omega (arith, some_delay, small) in
    let fits : (d - 1) / n % 2 ^ 32 ≡ (d - 1) / n = omega (arith, div-le_self (d - 1) n, less) in
    let slot : ℕ = (wheel.position + d) % n in
    let inside : slot < n = mod-lt (wheel.position + d) positive in
    (
      record timer { circle = (d - 1) / n },
      refl,
      rw (size, before, fits)
          (record {
            slot = slot;
            away = (d - 1) % n + 1;
            size = omega (
              arith,
              size,
              length-set wheel.slots slot
                  (get_or wheel.slots slot [] ++ record timer { circle = (d - 1) / n } ∷ []),
            );
            running = running;
            waiting = waiting;
            inside = inside;
            turning = turning;
            there =
                subst (In (record timer { circle = (d - 1) / n }))
                  (sym (
                    get_or-set_same wheel.slots slot
                      (get_or wheel.slots slot [] ++ record timer { circle = (d - 1) / n } ∷ [])
                      (omega (arith, inside, size))))
                  (In-snoc (record timer { circle = (d - 1) / n }) (get_or wheel.slots slot []));
            ahead = omega arith;
            near = omega (arith, mod-lt (d - 1) positive);
            meets = slot_lem wheel.position d n turning some_delay;
            small = omega (arith, div-le_self (d - 1) n, less);
            count = count_lem n d positive some_delay;
          }),
    )

-- On a running wheel with `n` slots, a timer with a delay of `d` ticks, `d` between 1 and 2 ^ 31 -
-- 1, that is not removed, still stands in a slot after every smaller number of ticks, and expires
-- at the tick `d` where `d` is at most `n`, but at the tick `d - n`, a whole turn early, where `d`
-- is above `n`.
pub set_timer_lem :
    (n : ℕ) (wheel : Wheel) (timer : Timer) (k : ℕ)
    → length wheel.slots ≡ n
    → wheel.position < n
    → wheel.stopped ≡ false
    → timer.removed ≡ false
    → 0 < delay_of timer.plan
    → delay_of timer.plan < 2 ^ 31
    → k < due_after n (delay_of timer.plan)
    → ((t : Timer) × (s : ℕ) × (t.timer_id ≡ timer.timer_id)
        × In t (get_or (ticks k (set_timer wheel timer)).slots s []))
      × ((t : Timer) × (t.timer_id ≡ timer.timer_id)
          × In t
              (advance (ticks (due_after n (delay_of timer.plan) - 1) (set_timer wheel timer))).0)
set_timer_lem n wheel timer k size turning running waiting some_delay small early =
    let e : ℕ = due_after n (delay_of timer.plan) in
    let start : Wheel = set_timer wheel timer in
    let (t, same, due) =
      set_timer-IsDue n wheel timer size turning running waiting some_delay small in
    let (t', kept, later) =
      ticks-IsDue n k (e - k - 1) start t (subst (IsDue n start t) (omega (arith, early)) due) in
    let (t'', held, last) =
      ticks-IsDue n (e - 1) 0 start t (subst (IsDue n start t) (omega (arith, early)) due) in
    (
      (t', later.slot, kept ∙ same, later.there),
      (turned t'', turned_id t'' ∙ held ∙ same, advance_expires n (ticks (e - 1) start) t'' last),
    )
