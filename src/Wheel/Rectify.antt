-- ===== src/Wheel/Rectify.antt =====
-- Delays: their parts, and the plan that counts them.
use poseidon.Prelude.{ℕ, zero, suc, ◌+◌, ◌*◌, ◌^◌, ◌≤◌, ◌<◌, ◌≡◌, ◌∙◌, List, [], ◌∷◌, arith}
use poseidon.Wheel.{Duration, Step, carry_up, rectify, plan_of}

-- The milliseconds of a delay, and of a plan.
abbrev pub total : Duration → ℕ
total d = d.milliseconds + 1000 * (d.seconds + 60 * (d.minutes + 60 * (d.hours + 24 * d.days)))

abbrev pub unit_of : ℕ → ℕ
unit_of zero = 1
unit_of (suc zero) = 1000
unit_of (suc (suc zero)) = 60000
unit_of (suc (suc (suc zero))) = 3600000
unit_of _ = 86400000

abbrev pub plan_total : List Step → ℕ
plan_total [] = 0
plan_total (step ∷ plan) = unit_of step.wheel * step.delay + plan_total plan

rectify_lem :
    (d : Duration)
    → d.milliseconds < 2 ^ 60
    → d.seconds < 2 ^ 60
    → d.minutes < 2 ^ 60
    → d.hours < 2 ^ 60
    → d.days < 2 ^ 60
    → (total (rectify d) ≡ total d)
      × ((rectify d).milliseconds ≤ 1000)
      × ((rectify d).seconds ≤ 60)
      × ((rectify d).minutes ≤ 60)
      × ((rectify d).hours ≤ 24)
unfolding rectify carry_up
rectify_lem d a b c e f = ground arith

plan_of_lem : (d : Duration) → plan_total (plan_of d) ≡ total d
unfolding plan_of
plan_of_lem d = ground arith

-- For a delay whose parts are below 2 ^ 60, the plan that is made of it counts as many
-- milliseconds as the delay, and the carried parts are at most 1000 milliseconds, 60 seconds, 60
-- minutes and 24 hours.
pub plan-rectify :
    (d : Duration)
    → d.milliseconds < 2 ^ 60
    → d.seconds < 2 ^ 60
    → d.minutes < 2 ^ 60
    → d.hours < 2 ^ 60
    → d.days < 2 ^ 60
    → (plan_total (plan_of (rectify d)) ≡ total d)
      × ((rectify d).milliseconds ≤ 1000)
      × ((rectify d).seconds ≤ 60)
      × ((rectify d).minutes ≤ 60)
      × ((rectify d).hours ≤ 24)
plan-rectify d a b c e f =
    let (same, ms, s, m, h) = rectify_lem d a b c e f in
    (plan_of_lem (rectify d) ∙ same, ms, s, m, h)
