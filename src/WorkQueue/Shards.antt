-- ===== src/WorkQueue/Shards.antt =====
-- src/Workers/queue.c: the queues of the shards. Each step of a scan holds the lock of its shard, and
-- the operations here are of one thread that no other interrupts.
pub mod Removal
pub mod Insertion
pub mod Operations
use poseidon.Prelude.{
  ℕ, zero, suc, ◌+◌, ◌%◌, ◌^◌, ◌<◌, ◌≡◌, refl, ap, sym, ◌∙◌, Bool, true, false, ◌⊎◌, inl, inr,
  Bool-cases, ==_iff, length-set, none, Option, some, List, [], ◌∷◌, ◌++◌, arith, ◌==◌,
  if◌then◌else◌, get_or, set, length, replicate, get_or-replicate, get_or-set, ◌>>=◌,
}
use mathlib.Core.Path.{subst}
use poseidon.WorkQueue.{Heap, Queue, init, enqueue, dequeue}
use poseidon.WorkQueue.Chain.{Cells, Chain, nil, IsQueue, has, frame}
use poseidon.WorkQueue.Fifo.{works, front, dequeue-cons}

-- QUEUE_SHARDS
abbrev pub queue_shards : ℕ
queue_shards = 16

-- `sharded_work_queue_t`, less its locks.
pub record ShardedQueue : Type 0 where
  pub queues : List Queue
  pub next_shard : ℕ

-- sharded_work_queue_init
abbrev pub init_all : ShardedQueue
init_all = record { queues = replicate queue_shards init; next_shard = 0 }

-- sharded_work_enqueue
unfoldable pub enqueue_next : Heap → ShardedQueue → ℕ → ℕ → Option (Heap × ShardedQueue)
enqueue_next h sq address work =
    let shard = sq.next_shard % queue_shards in
    enqueue h (get_or sq.queues shard init) address work >>= λ s.
    some
      (s.0, record { queues = set sq.queues shard s.1; next_shard = (sq.next_shard + 1) % 2 ^ 64 })

-- The loop of sharded_work_dequeue, with `n` shards left.
unfoldable pub scan : ℕ → ℕ → ℕ → Heap → List Queue → Option (ℕ × Heap × List Queue)
scan zero i shard h queues = some (0, h, queues)
scan (suc n) i shard h queues =
    let idx = (shard + i) % queue_shards in
    dequeue h (get_or queues idx init) >>= λ s.
    let rest = scan n (i + 1) shard s.1 (set queues idx s.2) in
    if s.0 == 0 then rest else some (s.0, s.1, set queues idx s.2)

-- sharded_work_dequeue, with the `start_shard` of the thread, and what it is then.
unfoldable pub dequeue_any : ℕ → Heap → ShardedQueue → Option (ℕ × ℕ × Heap × ShardedQueue)
dequeue_any start_shard h sq = scan queue_shards 0 start_shard h sq.queues >>= λ s.
    some ((start_shard + 1) % queue_shards, s.0, s.1, record sq { queues = s.2 })

-- The front of the first shard, from the place `i` on, whose front is not NULL.
unfoldable pub first_front : ℕ → ℕ → ℕ → (ℕ → Cells) → ℕ
first_front zero i shard xs = 0
first_front (suc n) i shard xs =
    let idx = (shard + i) % queue_shards in
    if front (works (xs idx)) == 0 then first_front n (i + 1) shard xs else front (works (xs idx))

abbrev pub tail : Cells → Cells
tail [] = []
tail (x ∷ xs) = xs

-- The contents of the shards after one item of the shard `idx` is taken.
abbrev pub take_from : ℕ → (ℕ → Cells) → ℕ → Cells
take_from idx xs i = if i == idx then tail (xs i) else xs i

-- The contents after the item `a` is added to the shard `idx`.
abbrev pub put_in : ℕ → ℕ → ℕ → (ℕ → Cells) → ℕ → Cells
put_in idx a w xs i = if i == idx then xs i ++ (a, w) ∷ [] else xs i

-- The contents after the first item of the first such shard is taken.
unfoldable pub after : ℕ → ℕ → ℕ → (ℕ → Cells) → ℕ → Cells
after zero i shard xs = xs
after (suc n) i shard xs =
    let idx = (shard + i) % queue_shards in
    if front (works (xs idx)) == 0 then after n (i + 1) shard xs else take_from idx xs

abbrev pub AllPositive : Cells → Type 0
AllPositive [] = zero ≡ zero
AllPositive ((p, w) ∷ xs) = (0 < w) × AllPositive xs

-- The queues of the shards hold the items `xs`, no two the same one and none of the work NULL.
pub record Shards (h : Heap) (queues : List Queue) (xs : ℕ → Cells) : Type 0 where
  pub sized : length queues ≡ queue_shards
  pub each : (i : ℕ) → IsQueue h (get_or queues i init) (xs i)
  pub works_pos : (i : ℕ) → AllPositive (xs i)
  pub distinct : (i j b : ℕ) → (i == j) ≡ false → has b (xs i) ≡ true → has b (xs j) ≡ false

-- The queues of new shards hold nothing.
pub init_all-Shards : Shards (λ a. none) init_all.queues (λ i. [])
init_all-Shards = record {
  sized = refl;
  each =
      λ i. subst (λ q. IsQueue (λ a. none) q []) (sym (get_or-replicate queue_shards init i)) nil;
  works_pos = λ i. refl;
  distinct = λ i j b away inside. refl;
}
