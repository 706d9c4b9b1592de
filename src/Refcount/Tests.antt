-- ===== src/Refcount/Tests.antt =====
-- Two threads that share a counter.
use poseidon.Prelude.{◌+◌, ◌*◌, ◌≡◌, ◌≤◌, arith}
use poseidon.Prelude.Entries.{sum_of}
use poseidon.Refcount.{
  Reach, outside, owner, count_of, Steps, stay, and_then, pick, take_load, take_count,
}
use poseidon.Refcount.Invariant.{owned, count_of-owned, Steps-Reach}
use poseidon.Refcount.Schedule.{two, leak}

-- The first thread takes a reference after three were leaked, and the count is 7.
taken_again : Steps (two 6 0 3 outside outside) (two 7 0 3 owner outside)
taken_again =
    and_then (and_then stay (pick 0 (omega arith) take_load)) (pick 0 (omega arith) take_count)

leak_example :
    Reach 1 (two 6 0 3 outside outside)
    × (count_of (two 6 0 3 outside outside).counter ≡ 6)
    × (6 ≤ count_of (two 7 0 3 owner outside).counter)
leak_example = leak 2 (two 7 0 3 owner outside) taken_again (omega arith)

count_of-owned_example :
    count_of (two 7 0 3 owner outside).counter
    ≡ sum_of owned (two 7 0 3 owner outside).threads + 0 + 2 * 3
count_of-owned_example =
    count_of-owned {s = two 7 0 3 owner outside} (omega arith) (omega arith)
      (Steps-Reach (leak 2 (two 7 0 3 owner outside) taken_again (omega arith)).0 taken_again)
