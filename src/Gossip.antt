-- ===== src/Gossip.antt =====
-- src/Network/Meridian/meridian_gossip.c: the scheduler of the gossip and the exchanges in flight.
-- Times are in microseconds, and a reading of the clock is an argument.
pub mod Rate
pub mod Exchange
mod Tests
use poseidon.Prelude.{
  ℕ, zero, suc, ◌+◌, ◌*◌, ◌/◌, ◌%◌, ◌^◌, ◌≡◌, Bool, true, false, Option, none, some, List, [], ◌∷◌,
  ◌++◌, ltb, leb, ◌==◌, if◌then◌else◌, length,
}

-- `meridian_gossip_scheduler_t`
pub record Scheduler : Type 0 where
  pub init_interval_s : ℕ
  pub num_init_intervals : ℕ
  pub steady_state_interval_s : ℕ
  pub interval_idx : ℕ
  pub is_initial_phase : Bool
  pub last_gossip : ℕ

-- meridian_gossip_scheduler_create
unfoldable pub create : ℕ → ℕ → ℕ → ℕ → Scheduler
create now init_interval_s num_init_intervals steady_state_interval_s = record {
  init_interval_s = init_interval_s;
  num_init_intervals = num_init_intervals;
  steady_state_interval_s = steady_state_interval_s;
  interval_idx = 0;
  is_initial_phase = true;
  last_gossip = now;
}

-- The interval of the phase.
abbrev pub interval : Scheduler → ℕ
interval sched =
    (if sched.is_initial_phase then sched.init_interval_s else sched.steady_state_interval_s)
    * 1000000

-- The part of a tick that counts the intervals of the first phase.
unfoldable pub advance : Scheduler → Scheduler
advance sched =
    if sched.is_initial_phase
    then record sched {
      interval_idx = (sched.interval_idx + 1) % 2 ^ 32;
      is_initial_phase =
          if leb sched.num_init_intervals ((sched.interval_idx + 1) % 2 ^ 32) then false else true;
    }
    else sched

-- meridian_gossip_scheduler_tick: `should_gossip`, and the scheduler.
unfoldable pub tick : ℕ → Scheduler → Bool × Scheduler
tick now sched =
    if leb (sched.last_gossip + interval sched) now
    then (true, advance (record sched { last_gossip = now }))
    else (false, sched)

-- meridian_gossip_scheduler_set_steady_state
unfoldable pub set_steady_state : Scheduler → ℕ → Scheduler
set_steady_state sched interval_s = record sched { steady_state_interval_s = interval_s }

-- Ticks one after the other: how many of them gossip, and the scheduler.
unfoldable pub ticks : List ℕ → Scheduler → ℕ × Scheduler
ticks [] sched = (0, sched)
ticks (now ∷ times) sched =
    let (fired, next) = tick now sched in
    let (more, last) = ticks times next in ((if fired then 1 else 0) + more, last)
