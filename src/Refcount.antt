-- ===== src/Refcount.antt =====
-- src/RefCounter/refcounter.c: reference counts with yields, as the atomic steps of threads that
-- share one counter.
pub mod Invariant
pub mod Schedule
mod Tests
use poseidon.Prelude.{
  ℕ, zero, suc, ◌+◌, ◌-◌, ◌%◌, ◌^◌, ◌<◌, ◌≡◌, List, ◌∷◌, get_or, set, length, replicate,
}

-- `refcounter_t`: a count of 64 bits, where `uint_fast16_t` has these, and a yield of 8 bits.
pub record Counter : Type 0 where
  pub count : ℕ
  pub yield : ℕ

-- refcounter_init
abbrev pub init : Counter
init = record { count = 1; yield = 0 }

-- refcounter_count
abbrev pub count_of : Counter → ℕ
count_of c = c.count % 2 ^ 16

-- Where a thread stands: it owns no reference, it owns one, or it is in refcounter_reference or in
-- refcounter_dereference, with the value of the yield, or the low 16 bits of the count, that it has
-- loaded.
pub data Pc : Type 0 where
  outside owner : Pc
  taking dropping subtracting : ℕ → Pc

-- An atomic step of one thread. `stolen` counts the calls of refcounter_dereference that have
-- consumed a yield. A weak exchange may fail at any time, and then loads the yield.
pub data Move (c : Counter) (stolen : ℕ) : Pc → Counter → ℕ → Pc → Type 0 where
  -- refcounter_reference
  take_load : Move c stolen outside c stolen (taking c.yield)
  take_yield :
      (e : ℕ)
      → c.yield ≡ suc e
      → Move c stolen (taking (suc e)) (record c { yield = e }) stolen owner
  take_again : (e : ℕ) → Move c stolen (taking (suc e)) c stolen (taking c.yield)
  take_count : Move c stolen (taking 0) (record c { count = (c.count + 1) % 2 ^ 64 }) stolen owner
  -- refcounter_yield and refcounter_consume, by which an owner gives its reference away.
  give : Move c stolen owner (record c { yield = (c.yield + 1) % 2 ^ 8 }) stolen outside
  -- refcounter_dereference
  drop_load : Move c stolen owner c stolen (dropping c.yield)
  drop_yield :
      (e : ℕ)
      → c.yield ≡ suc e
      → Move c stolen (dropping (suc e)) (record c { yield = e }) (suc stolen) outside
  drop_again : (e : ℕ) → Move c stolen (dropping (suc e)) c stolen (dropping c.yield)
  drop_read : Move c stolen (dropping 0) c stolen (subtracting (c.count % 2 ^ 16))
  drop_count :
      (v : ℕ)
      → Move c stolen
          (subtracting (suc v))
          (record c { count = (c.count + (2 ^ 64 - 1)) % 2 ^ 64 })
          stolen
          outside
  drop_none : Move c stolen (subtracting 0) c stolen outside

pub record System : Type 0 where
  pub counter : Counter
  pub stolen : ℕ
  pub threads : List Pc

-- One of the threads moves.
pub data Step (s : System) : System → Type 0 where
  pick :
      (i : ℕ) {c : Counter} {stolen : ℕ} {pc : Pc}
      → i < length s.threads
      → Move s.counter s.stolen (get_or s.threads i outside) c stolen pc
      → Step s (record { counter = c; stolen = stolen; threads = set s.threads i pc })

-- A new counter, owned by the first of `n + 1` threads.
abbrev pub start : ℕ → System
start n = record { counter = init; stolen = 0; threads = owner ∷ replicate n outside }

-- The states that `n + 1` threads can reach.
pub data Reach (n : ℕ) : System → Type 0 where
  begin : Reach n (start n)
  later : {s t : System} → Reach n s → Step s t → Reach n t

-- The states that any further steps lead to.
pub data Steps (s : System) : System → Type 0 where
  stay : Steps s s
  and_then : {t u : System} → Steps s t → Step t u → Steps s u
