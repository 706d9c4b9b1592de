-- ===== src/Wheel/Advance.antt =====
-- One tick of a wheel, and the timers that are not due yet.
use mathlib.Core.Path.{subst}
use native.Mathlib.Nat.{mod-lt, mod-eq_of_lt, mod_self}
use poseidon.Prelude.{
  ℕ, suc, ◌+◌, ◌-◌, ◌*◌, ◌%◌, ◌^◌, ◌≤◌, ◌<◌, ◌≡◌, refl, sym, ap, ◌∙◌, ◌⊎◌, inl, inr, false, List,
  [], arith, ltb, leb, ◌==◌, ltb→lt, leb→le, Bool-cases, length, get_or, set, length-set,
  get_or-set,
}
use poseidon.Wheel.{Timer, Wheel, maintenance, advance}
use poseidon.Wheel.Visit.{In, turned, maintenance_stays, maintenance_expires}

-- The timer `t` stands in a slot of a running wheel with `n` slots, `away` ticks from it, and is due in
-- `e` ticks.
pub record IsDue (n : ℕ) (wheel : Wheel) (t : Timer) (e : ℕ) : Type 0 where
  pub slot : ℕ
  pub away : ℕ
  pub size : length wheel.slots ≡ n
  pub running : wheel.stopped ≡ false
  pub waiting : t.removed ≡ false
  pub inside : slot < n
  pub turning : wheel.position < n
  pub there : In t (get_or wheel.slots slot [])
  pub ahead : 0 < away
  pub near : away ≤ n
  pub meets : (wheel.position + away ≡ slot) ⊎ (wheel.position + away ≡ slot + n)
  pub small : t.circle < 2 ^ 31
  pub count : e ≡ (t.circle - 1) * n + away

next_position :
    (p n : ℕ) → p < n → (((p + 1) % n ≡ p + 1) × (p + 1 < n)) ⊎ (((p + 1) % n ≡ 0) × (p + 1 ≡ n))
next_position p n h = elim (Bool-cases (ltb (p + 1) n)) [
  | inl e ↦ inl (mod-eq_of_lt (ltb→lt (p + 1) n e), ltb→lt (p + 1) n e)
  | inr e ↦ let whole : p + 1 ≡ n = ground (arith, e) in inr (rw whole (mod_self n), whole)
]

-- The wheel after a tick that finds it running.
moved : Wheel → ℕ → Wheel
moved wheel q = record wheel {
  slots = set wheel.slots q (maintenance (get_or wheel.slots q [])).1;
  position = q;
}

advance_running :
    (wheel : Wheel) (n : ℕ)
    → wheel.stopped ≡ false
    → length wheel.slots ≡ n
    → advance wheel ≡ (
      (maintenance (get_or wheel.slots ((wheel.position + 1) % n) [])).0,
      moved wheel ((wheel.position + 1) % n),
    )
unfolding advance moved
advance_running wheel n h e = rw (h, e) refl

circle_split : (c n : ℕ) → 1 < c → (c - 1) * n ≡ (c - 1 - 1) * n + n
circle_split c n h =
    let next : c - 1 ≡ suc (c - 1 - 1) = omega arith in ap (λ (x : ℕ). x * n) next ∙ grind arith

get_or-set_other :
    (xs : List (List Timer)) (q s : ℕ) (v : List Timer)
    → (q == s) ≡ false
    → get_or (set xs q v) s [] ≡ get_or xs s []
get_or-set_other xs q s v h = get_or-set xs q s v [] ∙ rw h refl

pub get_or-set_same :
    (xs : List (List Timer)) (q : ℕ) (v : List Timer) → q < length xs → get_or (set xs q v) q [] ≡ v
get_or-set_same xs q v h = ground (arith, get_or-set xs q q v [])

-- A tick of the wheel brings a timer that is not yet due one tick nearer.
pub advance_waits :
    (n : ℕ) (wheel : Wheel) (t : Timer) (e : ℕ)
    → IsDue n wheel t (suc (suc e))
    → (t' : Timer) × (t'.timer_id ≡ t.timer_id) × IsDue n (advance wheel).1 t' (suc e)
unfolding moved
advance_waits n wheel t e due =
    let q : ℕ = (wheel.position + 1) % n in
    let list : List Timer = (maintenance (get_or wheel.slots q [])).1 in
    let place : _ = next_position wheel.position n due.turning in
    let next : (advance wheel).1 ≡ moved wheel q =
      ap (λ (p : List Timer × Wheel). p.1) (advance_running wheel n due.running due.size) in
    let kept : length (set wheel.slots q list) ≡ n =
      omega (arith, length-set wheel.slots q list, due.size) in
    elim (Bool-cases (due.away == 1)) [
      | inl last ↦
          let here : (wheel.position + 1) % n ≡ due.slot = ground (arith, place, due) in
          let more : 1 < t.circle = grind (arith, due, last) in
          (
            record t { circle = t.circle - 1 },
            refl,
            rw next (record {
              slot = due.slot;
              away = n;
              size = kept;
              running = due.running;
              waiting = due.waiting;
              inside = due.inside;
              turning = mod-lt (wheel.position + 1) (omega (arith, due.turning));
              there =
                  subst
                    (λ (s : ℕ).
                      In (record t { circle = t.circle - 1 })
                        (get_or (set wheel.slots q list) s []))
                    here
                    (subst (In (record t { circle = t.circle - 1 }))
                      (sym (
                        get_or-set_same wheel.slots q list
                          (omega (arith, here, due.inside, due.size))))
                      (maintenance_stays t (get_or wheel.slots q [])
                        (subst (λ (s : ℕ). In t (get_or wheel.slots s [])) (sym here) due.there)
                        due.waiting (ground (arith, due.small, more))
                        (ground (arith, due.small, more))));
              ahead = omega (arith, due.inside);
              near = omega arith;
              meets = inr (omega (arith, here));
              small = omega (arith, due.small);
              count = omega (arith, due.count, circle_split t.circle n more, last);
            }),
          )
      | inr more ↦
          let elsewhere : ((wheel.position + 1) % n == due.slot) ≡ false =
            ground (arith, place, due) in
          (
            t,
            refl,
            rw next (record {
              slot = due.slot;
              away = due.away - 1;
              size = kept;
              running = due.running;
              waiting = due.waiting;
              inside = due.inside;
              turning = mod-lt (wheel.position + 1) (omega (arith, due.turning));
              there =
                  subst (In t) (sym (get_or-set_other wheel.slots q due.slot list elsewhere))
                    due.there;
              ahead = ground (arith, due);
              near = omega (arith, due.near);
              meets = ground (arith, place, due);
              small = due.small;
              count = ground (arith, due);
            }),
          )
    ]

-- The tick at which a timer is due hands it over.
pub advance_expires :
    (n : ℕ) (wheel : Wheel) (t : Timer) → IsDue n wheel t 1 → In (turned t) (advance wheel).0
advance_expires n wheel t due =
    let q : ℕ = (wheel.position + 1) % n in
    let place : _ = next_position wheel.position n due.turning in
    let last : due.away ≡ 1 = grind (arith, due) in
    let few : t.circle ≤ 1 = elim (Bool-cases (leb t.circle 1)) [
      | inl e ↦ leb→le t.circle 1 e
      | inr e ↦
          let more : 1 < t.circle = ground (arith, e) in
          absurd (omega (arith, circle_split t.circle n more, due.count, last, due.inside))
    ] in
    let here : (wheel.position + 1) % n ≡ due.slot = ground (arith, place, due, last) in
    subst (λ (p : List Timer × Wheel). In (turned t) p.0)
      (sym (advance_running wheel n due.running due.size))
      (maintenance_expires t (get_or wheel.slots q [])
        (subst (λ (s : ℕ). In t (get_or wheel.slots s [])) (sym here) due.there) due.waiting few)

pub turned_id : (t : Timer) → (turned t).timer_id ≡ t.timer_id
turned_id t = ground arith
