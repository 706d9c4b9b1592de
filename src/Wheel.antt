-- ===== src/Wheel.antt =====
-- src/Time/wheel.c: timing wheels, and the five of them that hold the parts of a delay. A timer list
-- is the list of its timers, a callback the number of the wheel that it ticks or of the user's timer.
-- A tick of one wheel runs from start to end; other wheels tick and users call between ticks.
pub mod Visit
pub mod Advance
pub mod Due
pub mod Rectify
pub mod Whole
pub mod Conserve
pub mod Cancel
mod Tests
use poseidon.Prelude.{
  ℕ, zero, suc, ◌+◌, ◌-◌, ◌*◌, ◌/◌, ◌%◌, ◌^◌, ◌≤◌, ◌<◌, ◌≡◌, refl, sym, ap, ◌∙◌, ◌↔◌, ◌⊎◌, inl, inr,
  Bool, true, false, not, ◌&&◌, ◌||◌, Option, none, some, List, [], ◌∷◌, ◌++◌, map, arith, ltb, leb,
  ◌==◌, if◌then◌else◌, ltb→lt, lt→ltb, leb→le, ==_iff, Bool-cases, Option-cases, List-cases,
  if_intro, eq_of_implications, same_bytes, same_bytes_iff, same_bytes_refl, ◌>>=◌, length, get_or,
  get_elem?, set, take, drop, reverse, replicate, length-append, length-replicate, length-set,
  length-take, length-drop, length-map, length-reverse, append_assoc, append-nil, reverse-append,
  reverse-reverse, get_or-append, get_or-set, get_or-take, get_or_ext, tests,
}
use poseidon.Prelude.Entries.{find}

-- Time_Seconds, Time_Minutes, Time_Hours, Time_Days
abbrev pub time_seconds : ℕ
time_seconds = 1000

abbrev pub time_minutes : ℕ
time_minutes = 60

abbrev pub time_hours : ℕ
time_hours = 60

abbrev pub time_days : ℕ
time_days = 24

-- `timer_duration_t`
pub record Duration : Type 0 where
  pub days : ℕ
  pub hours : ℕ
  pub minutes : ℕ
  pub seconds : ℕ
  pub milliseconds : ℕ

-- The wheels, from the lowest: 0 for milliseconds to 4 for days. A step of a plan is a delay and the
-- wheel that counts it.
pub record Step : Type 0 where
  pub delay : ℕ
  pub wheel : ℕ

-- What a timer calls: `timing_wheel_on_tick` of a wheel, or the callback of the user.
pub data Callback : Type 0 where
  on_tick : ℕ → Callback
  user : ℕ → Callback

-- `timer_st`. The steps of the plan before `current` are dropped; `circle` is an `int32_t`, by its
-- 32 bits.
pub record Timer : Type 0 where
  pub timer_id : ℕ
  pub plan : List Step
  pub cb : Callback
  pub removed : Bool
  pub circle : ℕ

-- `timing_wheel_t`
pub record Wheel : Type 0 where
  pub interval : ℕ
  pub slots : List (List Timer)
  pub position : ℕ
  pub stopped : Bool

-- timing_wheel_create
unfoldable pub create : ℕ → ℕ → Wheel
create interval slot_count = record {
  interval = interval;
  slots = replicate slot_count [];
  position = slot_count - 1;
  stopped = false;
}

abbrev pub delay_of : List Step → ℕ
delay_of [] = 0
delay_of (step ∷ plan) = step.delay

-- `timer->circle > 0`
abbrev pub circles : ℕ → Bool
circles circle = ltb 0 circle && ltb circle (2 ^ 31)

-- timing_wheel_set_timer. The position is below the number of slots, which are in memory, and the
-- sum of the position and the delay is taken to fit 64 bits.
unfoldable pub set_timer : Wheel → Timer → Wheel
set_timer wheel timer =
    let steps = delay_of timer.plan in
    let position = (wheel.position + steps) % length wheel.slots in
    let circle = (steps + (2 ^ 64 - 1)) % 2 ^ 64 / length wheel.slots % 2 ^ 32 in
    record wheel {
      slots =
          set wheel.slots position
            (get_or wheel.slots position [] ++ record timer { circle = circle } ∷ []);
    }

-- timing_wheel_maintenance of one list: the expired timers, and those that stay.
unfoldable pub maintenance : List Timer → List Timer × List Timer
maintenance [] = ([], [])
maintenance (timer ∷ list) =
    let (expired, kept) = maintenance list in
    if timer.removed
    then (expired, kept)
    else if circles timer.circle
    then if circles (timer.circle - 1)
      then (expired, record timer { circle = timer.circle - 1 } ∷ kept)
      else (record timer { circle = timer.circle - 1 } ∷ expired, kept)
    else (timer ∷ expired, kept)

-- timing_wheel_on_tick, as far as the wheel's own lock is held.
unfoldable pub advance : Wheel → List Timer × Wheel
advance wheel =
    if wheel.stopped
    then ([], wheel)
    else let position = (wheel.position + 1) % length wheel.slots in
      let (expired, kept) = maintenance (get_or wheel.slots position []) in
      (expired, record wheel { slots = set wheel.slots position kept; position = position })

-- The loop that skips the steps without a delay.
unfoldable pub skip_zeros : List Step → List Step
skip_zeros [] = []
skip_zeros (step ∷ plan) = if step.delay == 0 then skip_zeros plan else step ∷ plan

-- `hierarchical_timing_wheel_t`: the wheels by their numbers, the keys of the map `timers`, the next
-- identifier, and the callbacks that were given to the work pool, the last first.
pub record Hierarchy : Type 0 where
  pub wheels : List Wheel
  pub timers : List ℕ
  pub next_id : ℕ
  pub stopped : Bool
  pub jobs : List Callback

abbrev pub no_wheel : Wheel
no_wheel = record { interval = 0; slots = []; position = 0; stopped = true }

-- timing_wheel_set_timer on the wheel `k`.
abbrev pub place : Hierarchy → ℕ → Timer → Hierarchy
place h k timer = record h {
  wheels = set h.wheels k (set_timer (get_or h.wheels k no_wheel) timer);
}

-- timing_wheel_run: the lowest wheel gives its ticker to the pool, each other wheel sets a timer on
-- the wheel below it.
unfoldable pub run_wheel : Hierarchy → ℕ → Hierarchy
run_wheel h zero =
    let wheel = get_or h.wheels 0 no_wheel in
    record h {
      wheels = set h.wheels 0 (record wheel { stopped = false });
      jobs = Callback.on_tick 0 ∷ h.jobs;
    }
run_wheel h (suc k) = place h k record {
  timer_id = 0;
  plan = record { delay = (get_or h.wheels (suc k) no_wheel).interval; wheel = k } ∷ [];
  cb = Callback.on_tick (suc k);
  removed = false;
  circle = 0;
}

-- One round of the loop of timing_wheel_fire_expired.
unfoldable pub fire : Hierarchy → Timer → Hierarchy
fire h timer = if timer.removed then h else elim (skip_zeros (drop 1 timer.plan)) [
  | [] ↦ record h { jobs = timer.cb ∷ h.jobs }
  | step ∷ plan ↦ place h step.wheel (record timer { plan = step ∷ plan })
]

-- timing_wheel_fire_expired
unfoldable pub fire_expired : Hierarchy → List Timer → Hierarchy
fire_expired h [] = h
fire_expired h (timer ∷ expired) = fire_expired (fire h timer) expired

-- The removal of the expired timers from the map.
unfoldable pub forget : List Timer → List ℕ → List ℕ
forget [] timers = timers
forget (timer ∷ expired) timers = forget expired (elim (find (λ id. id == timer.timer_id) timers) [
  | none ↦ timers
  | some i ↦ take i timers ++ drop (suc i) timers
])

-- timing_wheel_on_tick of the wheel `k`.
unfoldable pub tick : Hierarchy → ℕ → Hierarchy
tick h k =
    if (get_or h.wheels k no_wheel).stopped
    then h
    else let (expired, wheel) = advance (get_or h.wheels k no_wheel) in
      let h' = record h { wheels = set h.wheels k wheel; timers = forget expired h.timers } in
      fire_expired (run_wheel h' k) expired

-- timer_duration_rectify, with its sums of 64 bits.
unfoldable pub carry_up : ℕ → ℕ → ℕ → ℕ × ℕ
carry_up unit low high =
    if ltb unit low then (low % unit, (high + low / unit) % 2 ^ 64) else (low, high)

unfoldable pub rectify : Duration → Duration
rectify d =
    let (milliseconds, seconds) = carry_up time_seconds d.milliseconds d.seconds in
    let (seconds', minutes) = carry_up time_minutes seconds d.minutes in
    let (minutes', hours) = carry_up time_hours minutes d.hours in
    let (hours', days) = carry_up time_days hours d.days in
    record {
      days = days;
      hours = hours';
      minutes = minutes';
      seconds = seconds';
      milliseconds = milliseconds;
    }

-- The plan that hierarchical_timing_wheel_set_timer makes.
unfoldable pub plan_of : Duration → List Step
plan_of d =
    let low = record { delay = d.milliseconds; wheel = 0 } ∷ [] in
    let from_seconds = record { delay = d.seconds; wheel = 1 } ∷ low in
    let from_minutes = record { delay = d.minutes; wheel = 2 } ∷ from_seconds in
    let from_hours = record { delay = d.hours; wheel = 3 } ∷ from_minutes in
    if ltb 0 d.days
    then record { delay = d.days; wheel = 4 } ∷ from_hours
    else if ltb 0 d.hours
    then from_hours
    else if ltb 0 d.minutes
    then from_minutes
    else if ltb 0 d.seconds
    then from_seconds
    else low

abbrev pub wheel_of : List Step → ℕ
wheel_of [] = 0
wheel_of (step ∷ plan) = step.wheel

-- hierarchical_timing_wheel_set_timer: the identifier, and the wheels. The callback carries the
-- identifier, which stands for `cb`, `abort` and `ctx`.
unfoldable pub set_hierarchical_timer : Hierarchy → Duration → ℕ × Hierarchy
set_hierarchical_timer h delay =
    let id = h.next_id in
    let plan = plan_of (rectify delay) in
    let timer : Timer = record {
      timer_id = id;
      plan = plan;
      cb = Callback.user id;
      removed = false;
      circle = 0;
    } in
    let h' = record h { timers = id ∷ h.timers; next_id = (h.next_id + 1) % 2 ^ 64 } in
    (id, place h' (wheel_of plan) timer)

-- `timer->removed = 1`, for the timer that the lists share.
unfoldable pub mark : ℕ → Timer → Timer
mark id timer = if timer.timer_id == id then record timer { removed = true } else timer

unfoldable pub mark_wheel : ℕ → Wheel → Wheel
mark_wheel id wheel = record wheel { slots = map (map (mark id)) wheel.slots }

-- hierarchical_timing_wheel_cancel_timer
unfoldable pub cancel_timer : Hierarchy → ℕ → Hierarchy
cancel_timer h id = elim (find (λ x. x == id) h.timers) [
  | none ↦ h
  | some i ↦ record h {
    wheels = map (mark_wheel id) h.wheels;
    timers = take i h.timers ++ drop (suc i) h.timers;
  }
]

-- hierarchical_timing_wheel_create
unfoldable pub create_hierarchy : ℕ → Hierarchy
create_hierarchy slot_count = record {
  wheels =
      create 1 slot_count
      ∷ create time_seconds slot_count
      ∷ create time_minutes slot_count
      ∷ create time_hours slot_count
      ∷ create time_days slot_count
      ∷ [];
  timers = [];
  next_id = 1;
  stopped = false;
  jobs = [];
}

-- hierarchical_timing_wheel_run
unfoldable pub run : Hierarchy → Hierarchy
run h = run_wheel (run_wheel (run_wheel (run_wheel (run_wheel h 0) 1) 2) 3) 4

-- hierarchical_timing_wheel_stop: the timers whose `abort` is called, and the wheels.
unfoldable pub mark_all : List ℕ → Wheel → Wheel
mark_all [] wheel = wheel
mark_all (id ∷ timers) wheel = mark_all timers (mark_wheel id wheel)

unfoldable pub stop : Hierarchy → List ℕ × Hierarchy
stop h = (
  h.timers,
  record h {
    wheels = map (λ (w : Wheel). mark_all h.timers (record w { stopped = true })) h.wheels;
    timers = [];
    stopped = true;
  },
)
