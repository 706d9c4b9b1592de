-- ===== src/Gossip/Rate.antt =====
-- How often the scheduler gossips.
use poseidon.Prelude.{
  ℕ, zero, suc, ◌+◌, ◌*◌, ◌^◌, ◌≤◌, ◌<◌, ◌≡◌, sym, inl, inr, Bool, true, List, [], ◌∷◌, arith, ltb,
  leb, ◌==◌, if◌then◌else◌, Bool-cases,
}
use poseidon.Gossip.{Scheduler, create, interval, advance, tick, ticks}

-- The rounds of the first phase: it has at least one.
abbrev pub rounds : ℕ → ℕ
rounds num_init_intervals = if num_init_intervals == 0 then 1 else num_init_intervals

-- The least time that `k` rounds of gossip take.
abbrev pub least_time : ℕ → ℕ → ℕ → ℕ → ℕ
least_time num first steady zero = 0
least_time num first steady (suc k) =
    least_time num first steady k + (if ltb k (rounds num) then first else steady) * 1000000

-- The scheduler after `k` rounds since the time `begun`.
pub record Counts (num first steady begun k : ℕ) (sched : Scheduler) : Type 0 where
  pub same_num : sched.num_init_intervals ≡ num
  pub same_first : sched.init_interval_s ≡ first
  pub same_steady : sched.steady_state_interval_s ≡ steady
  pub phase : sched.is_initial_phase ≡ ltb k (rounds num)
  pub index : sched.is_initial_phase ≡ true → sched.interval_idx ≡ k
  pub elapsed : begun + least_time num first steady k ≤ sched.last_gossip

Counts-create :
    (now first num steady : ℕ) → Counts num first steady now 0 (create now first num steady)
unfolding create
Counts-create now first num steady = ground arith

Counts-tick :
    (num first steady begun k now : ℕ) (sched : Scheduler)
    → num < 2 ^ 32
    → Counts num first steady begun k sched
    → Counts num first steady begun (if (tick now sched).0 then suc k else k) (tick now sched).1
unfolding tick advance
Counts-tick num first steady begun k now sched small h =
    elim (Bool-cases (leb (sched.last_gossip + interval sched) now)) [
      | inl due ↦ elim (Bool-cases sched.is_initial_phase) [
        | inl early ↦ ground (arith, due, early, h)
        | inr late ↦ ground (arith, due, late, h)
      ]
      | inr wait ↦ ground (arith, wait, h)
    ]

ticks-Counts :
    (num first steady begun k : ℕ) (times : List ℕ) (sched : Scheduler)
    → num < 2 ^ 32
    → Counts num first steady begun k sched
    → Counts num first steady begun ((ticks times sched).0 + k) (ticks times sched).1
unfolding ticks
ticks-Counts num first steady begun k [] sched small h = let e : 0 + k ≡ k = omega arith in rw e h
ticks-Counts num first steady begun k (now ∷ times) sched small h =
    let fired : Bool = (tick now sched).0 in
    let rest : Counts num first steady begun
        ((ticks times (tick now sched).1).0 + (if fired then suc k else k))
        (ticks times (tick now sched).1).1 =
      ticks-Counts num first steady begun (if fired then suc k else k) times (tick now sched).1
        small (Counts-tick num first steady begun k now sched small h) in
    let e : (if fired then 1 else 0) + (ticks times (tick now sched).1).0 + k
        ≡ (ticks times (tick now sched).1).0 + (if fired then suc k else k) =
      ground arith in
    rw e rest

-- After any ticks of a new scheduler, whose number of first intervals fits 32 bits, `k` of which
-- gossip, the scheduler is in its first phase exactly where `k` is below that number, or 0 where
-- the number is 0, it has counted `k` intervals there, and its last gossip is later than its
-- creation by at least the sum of the intervals of the `k` rounds.
pub ticks-create-Counts :
    (now first num steady : ℕ) (times : List ℕ)
    → num < 2 ^ 32
    → Counts num first steady now
        (ticks times (create now first num steady)).0
        (ticks times (create now first num steady)).1
ticks-create-Counts now first num steady times small =
    let sched : Scheduler = create now first num steady in
    let e : (ticks times sched).0 + 0 ≡ (ticks times sched).0 = omega arith in
    rw (sym e)
      (ticks-Counts num first steady now 0 times sched small (Counts-create now first num steady))
