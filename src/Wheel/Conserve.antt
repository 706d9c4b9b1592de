-- ===== src/Wheel/Conserve.antt =====
-- What the ticks of the wheels do to the timers of one user callback.
use poseidon.Prelude.{
  ℕ, zero, suc, ◌+◌, ◌<◌, ◌≡◌, refl, ap, ◌∙◌, inl, inr, true, false, List, [], ◌∷◌, arith,
  if◌then◌else◌, Bool-cases, List-cases, length, get_or, set, drop,
}
use poseidon.Prelude.Entries.{count, sum_of-set, sum_of-get}
use poseidon.Wheel.{
  Timer, Wheel, Callback, Hierarchy, no_wheel, advance, skip_zeros, run_wheel, fire, fire_expired,
  forget, tick,
}
use poseidon.Wheel.Whole.{
  is_pending, is_lost, on_wheel, on_wheels, called, IsWhole, whole-slots, set_wheel-IsWhole,
  length-advance, place-IsWhole, on_wheel-advance, on_wheels-place, is_lost-skip_zeros,
  is_lost-drop, strays, blind_strays, dead_strays,
}

module _ (id : ℕ) where
  -- The calls that were made and those still to come.
  abbrev pub balance : Hierarchy → ℕ
  balance h = called id h + on_wheels (is_pending id) h

  blind_pending : (t : Timer) (c : ℕ) → is_pending id (record t { circle = c }) ≡ is_pending id t
  blind_pending t c = refl

  dead_pending : (t : Timer) → t.removed ≡ true → is_pending id t ≡ false
  dead_pending t h = ground (arith, h)

  fire_lem :
      (h : Hierarchy) (timer : Timer)
      → IsWhole h
      → strays timer ≡ false
      → (balance (fire h timer) ≡ balance h + (if is_pending id timer then 1 else 0))
        × IsWhole (fire h timer)
        × (on_wheels strays (fire h timer) ≡ on_wheels strays h)
  unfolding fire
  fire_lem h timer whole fit = elim (Bool-cases timer.removed) [
    | inl e ↦ rw e (ground (arith, e), whole, refl)
    | inr e ↦
        let known : is_lost (skip_zeros (drop 1 timer.plan)) ≡ false =
          is_lost-skip_zeros (drop 1 timer.plan)
            (is_lost-drop timer.plan (ground (arith, fit, e))) in
        elim (List-cases (skip_zeros (drop 1 timer.plan))) [
          | inl f ↦
              rw (e, f)
                (ground (arith, e), record { five = whole.five; slotted = whole.slotted }, refl)
          | inr (step, plan, f) ↦
              let less : step.wheel < 5 = ground (arith, known, ap is_lost f) in
              let next : Timer = record timer { plan = step ∷ plan } in
              rw (e, f)
                (
                  ground (
                    arith,
                    e,
                    on_wheels-place (is_pending id) blind_pending dead_pending h step.wheel next
                        whole less,
                  ),
                  place-IsWhole h step.wheel next whole less,
                  ground (
                    arith,
                    known,
                    ap is_lost f,
                    on_wheels-place strays blind_strays dead_strays h step.wheel next whole less,
                  ),
                )
        ]
  ]

  fire_expired_lem :
      (h : Hierarchy) (expired : List Timer)
      → IsWhole h
      → count strays expired ≡ 0
      → (balance (fire_expired h expired) ≡ balance h + count (is_pending id) expired)
        × IsWhole (fire_expired h expired)
        × (on_wheels strays (fire_expired h expired) ≡ on_wheels strays h)
  unfolding fire_expired
  fire_expired_lem h [] whole fit = (omega arith, whole, refl)
  fire_expired_lem h (timer ∷ expired) whole fit =
      let (known, kept, same) = fire_lem h timer whole (ground (arith, fit)) in
      let (rest, kept_all, same_all) =
        fire_expired_lem (fire h timer) expired kept (ground (arith, fit)) in
      (omega (arith, rest, known), kept_all, same_all ∙ same)

  run_wheel_lem :
      (h : Hierarchy) (k : ℕ)
      → IsWhole h
      → k < 5
      → (balance (run_wheel h k) ≡ balance h)
        × IsWhole (run_wheel h k)
        × (on_wheels strays (run_wheel h k) ≡ on_wheels strays h)
  unfolding run_wheel
  run_wheel_lem h zero whole less =
      let wheel : Wheel = record (get_or h.wheels 0 no_wheel) { stopped = false } in
      let next : IsWhole (record h { wheels = set h.wheels 0 wheel }) =
        set_wheel-IsWhole h 0 wheel whole less (whole-slots h 0 whole less) in
      (
        omega (
          arith,
          sum_of-set (on_wheel (is_pending id)) h.wheels 0 wheel no_wheel
              (omega (arith, whole.five)),
        ),
        record { five = next.five; slotted = next.slotted },
        omega (
          arith,
          sum_of-set (on_wheel strays) h.wheels 0 wheel no_wheel (omega (arith, whole.five)),
        ),
      )
  run_wheel_lem h (suc k) whole less =
      let timer : Timer = record {
        timer_id = 0;
        plan = record { delay = (get_or h.wheels (suc k) no_wheel).interval; wheel = k } ∷ [];
        cb = Callback.on_tick (suc k);
        removed = false;
        circle = 0;
      } in
      (
        omega (
          arith,
          on_wheels-place (is_pending id) blind_pending dead_pending h k timer whole (omega arith),
        ),
        place-IsWhole h k timer whole (omega arith),
        ground (
          arith,
          less,
          on_wheels-place strays blind_strays dead_strays h k timer whole (omega arith),
        ),
      )

balance-tick :
    (id : ℕ) (h : Hierarchy) (k : ℕ)
    → IsWhole h
    → on_wheels strays h ≡ 0
    → k < 5
    → (balance id (tick h k) ≡ balance id h)
      × IsWhole (tick h k)
      × (on_wheels strays (tick h k) ≡ 0)
unfolding tick
balance-tick id h k whole fit less =
    let wheel : Wheel = get_or h.wheels k no_wheel in
    let there : k < length h.wheels = omega (arith, whole.five) in
    let some_slots : 0 < length wheel.slots = whole-slots h k whole less in
    elim (Bool-cases wheel.stopped) [
      | inl e ↦ rw e (refl, whole, fit)
      | inr e ↦
          let expired : List Timer = (advance wheel).0 in
          let after : Hierarchy = record h {
            wheels = set h.wheels k (advance wheel).1;
            timers = forget expired h.timers;
          } in
          let set_whole : IsWhole (record h { wheels = set h.wheels k (advance wheel).1 }) =
            set_wheel-IsWhole h k (advance wheel).1 whole less
              (omega (arith, length-advance wheel, some_slots)) in
          let whole_after : IsWhole after = record {
            five = set_whole.five;
            slotted = set_whole.slotted;
          } in
          let handed : balance id after + count (is_pending id) expired ≡ balance id h = omega (
            arith,
            on_wheel-advance (is_pending id) (blind_pending id) (dead_pending id) wheel some_slots,
            sum_of-set (on_wheel (is_pending id)) h.wheels k (advance wheel).1 no_wheel there,
          ) in
          let (running, whole_running, same_running) = run_wheel_lem id after k whole_after less in
          let fits : count strays expired ≡ 0 = omega (
            arith,
            on_wheel-advance strays blind_strays dead_strays wheel some_slots,
            sum_of-get (on_wheel strays) h.wheels k no_wheel there,
            fit,
          ) in
          let (fired, whole_fired, same_fired) =
            fire_expired_lem id (run_wheel after k) expired whole_running fits in
          rw e (
            fired ∙ omega (arith, running, handed),
            whole_fired,
            omega (
              arith,
              same_fired,
              same_running,
              fit,
              on_wheel-advance strays blind_strays dead_strays wheel some_slots,
              sum_of-set (on_wheel strays) h.wheels k (advance wheel).1 no_wheel there,
            ),
          )
    ]

-- The ticks of a list of wheels, in this order.
abbrev pub tick_all : List ℕ → Hierarchy → Hierarchy
tick_all [] h = h
tick_all (k ∷ ks) h = tick_all ks (tick h k)

abbrev pub AllWheels : List ℕ → Type 0
AllWheels [] = zero ≡ zero
AllWheels (k ∷ ks) = (k < 5) × AllWheels ks

-- In five wheels with slots, and with no timer whose plan names another wheel, any sequence of
-- ticks of the wheels keeps, for each user callback, the sum of the calls that were given to the
-- pool and the timers that still carry it: no timer is lost, and none fires twice.
pub balance-tick_all :
    (id : ℕ) (ks : List ℕ) (h : Hierarchy)
    → IsWhole h
    → on_wheels strays h ≡ 0
    → AllWheels ks
    → balance id (tick_all ks h) ≡ balance id h
balance-tick_all id [] h whole fit all = refl
balance-tick_all id (k ∷ ks) h whole fit (less, all) =
    let (same, kept, fits) = balance-tick id h k whole fit less in
    balance-tick_all id ks (tick h k) kept fits all ∙ same
