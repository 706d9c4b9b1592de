-- ===== src/WorkQueue/Tests.antt =====
-- Tests of the queue of works.
use poseidon.Prelude.{ℕ, ◌≡◌, refl, Option, some, none, [], ◌∷◌, ◌>>=◌, arith, set}
use poseidon.WorkQueue.{Heap, Queue, init, write, enqueue, unlink, dequeue}
use poseidon.WorkQueue.Chain.{Cells, IsQueue, nil, cons}
use poseidon.WorkQueue.Shards.{
  queue_shards, ShardedQueue, init_all, init_all-Shards, enqueue_next, dequeue_any, Shards, put_in,
  after, scan, first_front,
}
use poseidon.WorkQueue.Shards.Insertion.{put-Shards}
use poseidon.WorkQueue.Shards.Operations.{dequeue_any-Shards}
use poseidon.WorkQueue.Fifo.{Reach, start, put, dequeue-Reach}

-- The work 7 at the address 1.
abbrev heap : Heap
heap = write (λ a. none) 1 (some (record { work = 7; next = 0; previous = 0 }))

abbrev queue : Queue
queue = record { first = 1; last = 1 }

queue-Reach : Reach (7 ∷ []) heap queue
unfolding enqueue
queue-Reach = put 1 7 start (ground arith) refl refl

-- A second work at the address 2, and then both are taken.
abbrev both : Option (ℕ × ℕ × Queue)
both = enqueue heap queue 2 9 >>= λ s.
    dequeue s.0 s.1 >>= λ t. dequeue t.1 t.2 >>= λ u. some (t.0, u.0, u.2)

fifo_test : both ≡ some (7, 9, init)
unfolding enqueue dequeue unlink
fifo_test = refl

dequeue-Reach_example :
    ((h' : Heap) × (q' : Queue) × (dequeue heap queue ≡ some (7, h', q')) × Reach [] h' q')
    × ((h' : Heap) × (q' : Queue) × (enqueue heap queue 2 9 ≡ some (h', q'))
        × Reach (7 ∷ 9 ∷ []) h' q')
dequeue-Reach_example = dequeue-Reach (7 ∷ []) heap queue 2 9 queue-Reach (ground arith) refl

-- That work in the shard 0, and no other.
abbrev sharded : ShardedQueue
sharded = record { queues = set init_all.queues 0 queue; next_shard = 1 }

abbrev held : ℕ → Cells
held = put_in 0 1 7 (λ i. [])

queue-IsQueue : IsQueue heap queue ((1, 7) ∷ [])
queue-IsQueue = cons refl (ground arith) refl nil

sharded-Shards : Shards heap sharded.queues held
sharded-Shards =
    put-Shards init_all-Shards (ground arith) refl (ground arith) queue-IsQueue
      (λ b other out. ground (arith, other))

-- A scan from the shard 3 finds the work after 13 empty shards.
scan_test : (dequeue_any 3 heap sharded >>= λ s. some s.1) ≡ some 7
unfolding dequeue_any scan dequeue unlink
scan_test = refl

dequeue_any-Shards_example :
    ((h' : Heap) × (sq' : ShardedQueue) × (dequeue_any 3 heap sharded ≡ some (4, 7, h', sq'))
      × Shards h' sq'.queues (after queue_shards 0 3 held))
    × ((h' : Heap) × (sq' : ShardedQueue) × (enqueue_next heap sharded 2 9 ≡ some (h', sq'))
        × Shards h' sq'.queues (put_in 1 2 9 held))
unfolding first_front
dequeue_any-Shards_example =
    dequeue_any-Shards 3 2 9 heap sharded held sharded-Shards (ground arith) refl (ground arith)
