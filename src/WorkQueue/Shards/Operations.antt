-- ===== src/WorkQueue/Shards/Operations.antt =====
-- The operations of the shards.
use poseidon.Prelude.{ℕ, ◌+◌, ◌%◌, ◌^◌, ◌<◌, ◌≡◌, refl, none, some, arith, set}
use poseidon.WorkQueue.{Heap}
use poseidon.WorkQueue.Chain.{Cells}
use poseidon.WorkQueue.Shards.Insertion.{enqueue-Shards}
use poseidon.WorkQueue.Shards.Removal.{scan_lem}
use poseidon.WorkQueue.Shards.{
  queue_shards, ShardedQueue, enqueue_next, dequeue_any, first_front, put_in, after, Shards,
}

-- In shards whose queues hold distinct items, none with the work NULL, neither operation follows a
-- pointer to no item, and both keep the shards: a dequeue returns the front of the first shard,
-- from the start of the thread on and around, that has one, NULL where none has, takes it from
-- that shard alone, and moves the start on; an enqueue, of a work that is not NULL at an address
-- that is not in use, adds it at the end of the shard whose turn it is.
pub dequeue_any-Shards :
    (start_shard a w : ℕ) (h : Heap) (sq : ShardedQueue) (xs : ℕ → Cells)
    → Shards h sq.queues xs
    → 0 < a
    → h a ≡ none
    → 0 < w
    → ((h' : Heap) × (sq' : ShardedQueue) × (dequeue_any start_shard h sq
          ≡ some (
            (start_shard + 1) % queue_shards,
            first_front queue_shards 0 start_shard xs,
            h',
            sq',
          ))
        × Shards h' sq'.queues (after queue_shards 0 start_shard xs))
      × ((h' : Heap) × (sq' : ShardedQueue) × (enqueue_next h sq a w ≡ some (h', sq'))
          × Shards h' sq'.queues (put_in (sq.next_shard % queue_shards) a w xs))
unfolding dequeue_any enqueue_next
dequeue_any-Shards start_shard a w h sq xs s pos free w_pos =
    let (h', queues', e, s') = scan_lem queue_shards 0 start_shard h sq.queues xs s in
    let shard : ℕ = sq.next_shard % queue_shards in
    let (g, q, d, t) = enqueue-Shards h sq.queues xs shard a w s (omega arith) pos free w_pos in
    (
      (h', record sq { queues = queues' }, rw e refl, s'),
      (
        g,
        record { queues = set sq.queues shard q; next_shard = (sq.next_shard + 1) % 2 ^ 64 },
        rw d refl,
        t,
      ),
    )
