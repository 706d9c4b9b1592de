-- ===== src/WorkQueue.antt =====
-- src/Workers/queue.c: the queue of a worker pool, a list of items that are linked both ways. An
-- address is a number, and 0 is NULL; so is a work that is not there.
pub mod Chain
pub mod Fifo
pub mod Shards
mod Tests
use poseidon.Prelude.{ℕ, Bool, Option, none, some, List, ◌==◌, if◌then◌else◌, ◌>>=◌}

-- `work_queue_item_t`
pub record Item : Type 0 where
  pub work : ℕ
  pub next : ℕ
  pub previous : ℕ

-- The memory of the items.
abbrev pub Heap : Type 0
Heap = ℕ → Option Item

abbrev pub write : Heap → ℕ → Option Item → Heap
write h p cell a = if a == p then cell else h a

-- `work_queue_t`
pub record Queue : Type 0 where
  pub first : ℕ
  pub last : ℕ

-- work_queue_init
abbrev pub init : Queue
init = record { first = 0; last = 0 }

-- work_enqueue, for an item at the address that the allocation gives: `none` where it follows a
-- pointer to no item.
unfoldable pub enqueue : Heap → Queue → ℕ → ℕ → Option (Heap × Queue)
enqueue h q address work =
    let item : Item = record { work = work; next = 0; previous = q.last } in
    let h' = write h address (some item) in
    if q.last == 0
    then some (h', record { first = address; last = address })
    else (h' q.last >>= λ old.
        some (write h' q.last (some (record old { next = address })), record q { last = address }))

-- The step of work_dequeue that clears the back link of the new first item.
unfoldable pub unlink : Heap → ℕ → Option Heap
unlink h p =
    if p == 0
    then some h
    else (h p >>= λ item. some (write h p (some (record item { previous = 0 }))))

-- work_dequeue
unfoldable pub dequeue : Heap → Queue → Option (ℕ × Heap × Queue)
dequeue h q =
    if q.first == 0
    then some (0, h, q)
    else (h q.first >>= λ temp. unlink h temp.next >>= λ h'. some (
      temp.work,
      write h' q.first none,
      record { first = temp.next; last = if q.last == q.first then 0 else q.last },
    ))
