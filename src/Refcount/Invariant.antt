-- ===== src/Refcount/Invariant.antt =====
-- What the count stands for in every state that the threads can reach.
use poseidon.Prelude.{
  ℕ, zero, suc, ◌+◌, ◌*◌, ◌^◌, ◌≤◌, ◌<◌, ◌≡◌, refl, ap, List, [], ◌∷◌, get_or, set, length,
  replicate, arith, ◌==◌, if◌then◌else◌, length-set, length-replicate,
}
use poseidon.Prelude.Entries.{sum_of, sum_of-set, sum_of-get}
use poseidon.Refcount.{
  Counter, count_of, Pc, outside, owner, taking, dropping, subtracting, Move, System, pick, start,
  Reach, begin, later, take_load, take_yield, take_again, take_count, give, drop_load, drop_yield,
  drop_again, drop_read, drop_count, drop_none, Steps, stay, and_then,
}

-- The references that a thread owns; it owns the one that it drops until the last step.
abbrev pub owned : Pc → ℕ
owned outside = 0
owned owner = 1
owned (taking e) = 0
owned (dropping e) = 1
owned (subtracting v) = 1

-- The yields that a thread can add before it sees one.
abbrev gives : Pc → ℕ
gives outside = 0
gives owner = 1
gives (taking e) = if e == 0 then 1 else 0
gives (dropping e) = 1
gives (subtracting v) = 1

-- Whether a thread has loaded a count of 0.
abbrev blank : Pc → ℕ
blank (subtracting v) = if v == 0 then 1 else 0
blank _ = 0

gives_le : (pc : Pc) → gives pc ≤ 1
gives_le outside = omega arith
gives_le owner = omega arith
gives_le (taking e) = ground arith
gives_le (dropping e) = omega arith
gives_le (subtracting v) = omega arith

sum_gives : (pcs : List Pc) → sum_of gives pcs ≤ length pcs
sum_gives [] = omega arith
sum_gives (pc ∷ pcs) = omega (arith, gives_le pc, sum_gives pcs)

owned-le-gives : (pc : Pc) → owned pc ≤ gives pc
owned-le-gives outside = omega arith
owned-le-gives owner = omega arith
owned-le-gives (taking e) = omega arith
owned-le-gives (dropping e) = omega arith
owned-le-gives (subtracting v) = omega arith

sum_owned : (pcs : List Pc) → sum_of owned pcs ≤ sum_of gives pcs
sum_owned [] = omega arith
sum_owned (pc ∷ pcs) = omega (arith, owned-le-gives pc, sum_owned pcs)

pub record Inv (n : ℕ) (c : Counter) (stolen : ℕ) (pcs : List Pc) : Type 0 where
  pub balanced : c.count ≡ sum_of owned pcs + c.yield + 2 * stolen
  pub few : c.yield + sum_of gives pcs ≤ suc n
  pub size : length pcs ≡ suc n
  pub loaded : sum_of blank pcs ≡ 0

-- What a change of one thread makes of the sums.
record Change (pcs : List Pc) (i : ℕ) (pc next : Pc) : Type 0 where
  owned_sum : sum_of owned (set pcs i next) + owned pc ≡ sum_of owned pcs + owned next
  owned_le : owned pc ≤ sum_of owned pcs
  gives_sum : sum_of gives (set pcs i next) + gives pc ≡ sum_of gives pcs + gives next
  gives_few : sum_of gives (set pcs i next) ≤ length pcs
  owned_few : sum_of owned (set pcs i next) ≤ sum_of gives (set pcs i next)
  owned_before : sum_of owned pcs ≤ sum_of gives pcs
  blank_sum : sum_of blank (set pcs i next) + blank pc ≡ sum_of blank pcs + blank next
  same_size : length (set pcs i next) ≡ length pcs

change :
    (pcs : List Pc) (i : ℕ) (pc next : Pc)
    → i < length pcs
    → get_or pcs i outside ≡ pc
    → Change pcs i pc next
change pcs i pc next h e = record {
  owned_sum = omega (arith, sum_of-set owned pcs i next outside h, ap owned e);
  owned_le = omega (arith, sum_of-get owned pcs i outside h, ap owned e);
  gives_sum = omega (arith, sum_of-set gives pcs i next outside h, ap gives e);
  gives_few = omega (arith, sum_gives (set pcs i next), length-set pcs i next);
  owned_few = sum_owned (set pcs i next);
  owned_before = sum_owned pcs;
  blank_sum = omega (arith, sum_of-set blank pcs i next outside h, ap blank e);
  same_size = length-set pcs i next;
}

Move-Inv :
    (n : ℕ) {c d : Counter} {stolen stolen' : ℕ} {pc next : Pc} (pcs : List Pc) (i : ℕ)
    → n < 255
    → 2 * stolen' + suc n < 2 ^ 16
    → Change pcs i pc next
    → Move c stolen pc d stolen' next
    → Inv n c stolen pcs
    → Inv n d stolen' (set pcs i next)
Move-Inv n pcs i small room h take_load inv = ground arith
Move-Inv n pcs i small room h (take_yield e some_left) inv = ground arith
Move-Inv n pcs i small room h (take_again e) inv = ground arith
Move-Inv n pcs i small room h take_count inv = ground arith
Move-Inv n pcs i small room h give inv = ground arith
Move-Inv n pcs i small room h drop_load inv = ground arith
Move-Inv n pcs i small room h (drop_yield e some_left) inv = ground arith
Move-Inv n pcs i small room h (drop_again e) inv = ground arith
Move-Inv n pcs i small room h drop_read inv = ground arith
Move-Inv n pcs i small room h (drop_count v) inv = ground arith
Move-Inv n pcs i small room h drop_none inv = ground arith

stolen_grows :
    {c d : Counter} {stolen stolen' : ℕ} {pc next : Pc}
    → Move c stolen pc d stolen' next
    → stolen ≤ stolen'
stolen_grows take_load = omega arith
stolen_grows (take_yield e h) = omega arith
stolen_grows (take_again e) = omega arith
stolen_grows take_count = omega arith
stolen_grows give = omega arith
stolen_grows drop_load = omega arith
stolen_grows (drop_yield e h) = omega arith
stolen_grows (drop_again e) = omega arith
stolen_grows drop_read = omega arith
stolen_grows (drop_count v) = omega arith
stolen_grows drop_none = omega arith

sum_outside : (n : ℕ) (f : Pc → ℕ) → f outside ≡ 0 → sum_of f (replicate n outside) ≡ 0
sum_outside zero f h = refl
sum_outside (suc n) f h = omega (arith, h, sum_outside n f h)

start-Inv : (n : ℕ) → Inv n (start n).counter (start n).stolen (start n).threads
start-Inv n =
    let owners : sum_of owned (replicate n outside) ≡ 0 = sum_outside n owned refl in
    let givers : sum_of gives (replicate n outside) ≡ 0 = sum_outside n gives refl in
    let blanks : sum_of blank (replicate n outside) ≡ 0 = sum_outside n blank refl in
    record {
      balanced = omega (arith, owners);
      few = omega (arith, givers);
      size = omega (arith, length-replicate n outside);
      loaded = omega (arith, blanks);
    }

pub Reach-Inv :
    {n : ℕ} {s : System}
    → n < 255
    → 2 * s.stolen + suc n < 2 ^ 16
    → Reach n s
    → Inv n s.counter s.stolen s.threads
Reach-Inv {n} small room begin = start-Inv n
Reach-Inv {n} small room (later {s} r (pick i {c} {stolen} {pc} h m)) =
    Move-Inv n s.threads i small room (change s.threads i (get_or s.threads i outside) pc h refl) m
      (Reach-Inv small (omega (arith, stolen_grows m)) r)

-- In every state that `n + 1` threads, `n` below 255, can reach by any interleaving of the atomic
-- steps of the reference counter, where twice the yields that dereferences consumed and `n + 1`
-- are together below 2 ^ 16, the count is the number of references that the threads own, the
-- pending yields, and two for each yield that a dereference consumed.
pub count_of-owned :
    {n : ℕ} {s : System}
    → n < 255
    → 2 * s.stolen + suc n < 2 ^ 16
    → Reach n s
    → count_of s.counter ≡ sum_of owned s.threads + s.counter.yield + 2 * s.stolen
count_of-owned {n} {s} small room r =
    let inv : Inv n s.counter s.stolen s.threads = Reach-Inv small room r in
    omega (arith, inv.balanced, inv.few, sum_owned s.threads)

pub Steps-Reach : {n : ℕ} {s t : System} → Reach n s → Steps s t → Reach n t
Steps-Reach r stay = r
Steps-Reach r (and_then steps step) = later (Steps-Reach r steps) step

-- No step forgets a yield that a dereference consumed.
pub Steps_kept : {s t : System} → Steps s t → s.stolen ≤ t.stolen
Steps_kept stay = omega arith
Steps_kept (and_then steps (pick i h m)) = omega (arith, Steps_kept steps, stolen_grows m)
