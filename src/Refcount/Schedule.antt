-- ===== src/Refcount/Schedule.antt =====
-- Schedules of two threads after which the count stays above 0.
use mathlib.Core.Path.{subst}
use poseidon.Prelude.{ℕ, zero, suc, ◌+◌, ◌*◌, ◌%◌, ◌^◌, ◌≤◌, ◌<◌, ◌≡◌, refl, [], ◌∷◌, arith}
use poseidon.Refcount.{
  Pc, outside, owner, taking, dropping, System, pick, Reach, begin, later, take_load, take_count,
  give, drop_load, drop_yield, count_of, Steps,
}
use poseidon.Refcount.Invariant.{count_of-owned, Steps-Reach, Steps_kept}

-- Two threads, a count and a yield.
abbrev pub two : ℕ → ℕ → ℕ → Pc → Pc → System
two count yield stolen first second = record {
  counter = record { count = count; yield = yield };
  stolen = stolen;
  threads = first ∷ second ∷ [];
}

-- The second of two owners drops its reference after the first has given its own away.
drop_given :
    (count stolen : ℕ)
    → Reach 1 (two count 0 stolen owner owner)
    → Reach 1 (two count 0 (suc stolen) outside outside)
drop_given count stolen r =
    let given : Reach 1 (two count 1 stolen outside owner) = later r (pick 0 (omega arith) give) in
    let loaded : Reach 1 (two count 1 stolen outside (dropping 1)) =
      later given (pick 1 (omega arith) drop_load) in
    later loaded (pick 1 (omega arith) (drop_yield 0 refl))

take_first :
    (count stolen : ℕ)
    → suc count < 2 ^ 64
    → Reach 1 (two count 0 stolen outside outside)
    → Reach 1 (two (suc count) 0 stolen owner outside)
take_first count stolen h r =
    let loaded : Reach 1 (two count 0 stolen (taking 0) outside) =
      later r (pick 0 (omega arith) take_load) in
    let e : (count + 1) % 2 ^ 64 ≡ suc count = omega arith in
    subst (λ c. Reach 1 (two c 0 stolen owner outside)) e
      (later loaded (pick 0 (omega arith) take_count))

take_second :
    (count stolen : ℕ)
    → suc count < 2 ^ 64
    → Reach 1 (two count 0 stolen owner outside)
    → Reach 1 (two (suc count) 0 stolen owner owner)
take_second count stolen h r =
    let loaded : Reach 1 (two count 0 stolen owner (taking 0)) =
      later r (pick 1 (omega arith) take_load) in
    let e : (count + 1) % 2 ^ 64 ≡ suc count = omega arith in
    subst (λ c. Reach 1 (two c 0 stolen owner owner)) e
      (later loaded (pick 1 (omega arith) take_count))

-- After `k + 1` rounds the count is `2 * (k + 1)`.
leaked : (k : ℕ) → 2 * suc k < 2 ^ 64 → Reach 1 (two (2 * suc k) 0 (suc k) outside outside)
leaked zero h = drop_given 2 0 (take_second 1 0 (omega arith) begin)
leaked (suc k) h =
    let c : ℕ = 2 * suc k in
    let e : suc (suc c) ≡ 2 * suc (suc k) = omega arith in
    subst (λ n. Reach 1 (two n 0 (suc (suc k)) outside outside)) e
      (drop_given (suc (suc c)) (suc k) (
        take_second (suc c) (suc k) (omega arith)
          (take_first c (suc k) (omega arith) (leaked k (omega arith)))))

-- For each `k`, where `t` is a state that any further steps lead to, and twice the yields that
-- dereferences have consumed in `t`, and 2, are together below 2 ^ 16: two threads reach a state
-- in which neither owns a reference and no yield is pending, but refcounter_count gives `2 * (k +
-- 1)`, and in `t` it gives no less, so that it does not read 0.
pub leak :
    (k : ℕ) (t : System)
    → Steps (two (2 * suc k) 0 (suc k) outside outside) t
    → 2 * t.stolen + 2 < 2 ^ 16
    → Reach 1 (two (2 * suc k) 0 (suc k) outside outside)
      × (count_of (two (2 * suc k) 0 (suc k) outside outside).counter ≡ 2 * suc k)
      × (2 * suc k ≤ count_of t.counter)
leak k t steps room =
    let kept : suc k ≤ t.stolen = Steps_kept steps in
    let reached : Reach 1 (two (2 * suc k) 0 (suc k) outside outside) =
      leaked k (omega (arith, kept, room)) in
    (
      reached,
      omega (arith, kept, room),
      omega (arith, kept, count_of-owned (omega arith) room (Steps-Reach reached steps)),
    )
