-- ===== src/Latency/Branches.antt =====
-- A valid cache, and the three branches of an insertion.
use poseidon.Prelude.{
  ℕ, ◌≤◌, ◌<◌, ◌≡◌, true, false, none, some, [], ◌∷◌, ◌++◌, arith, ltb, length, get_or, set,
}
use poseidon.Prelude.Entries.{find, count}
use poseidon.Ring.{Node}
use poseidon.Latency.{Entry, Cache, no_entry, is_at, insert, oldest_loop}

-- No two entries have one address and port, and there is room for an entry.
pub record IsValid (cache : Cache) : Type 0 where
  pub unique : (a p : ℕ) → count (is_at a p) cache.entries ≤ 1
  pub bounded : length cache.entries ≤ cache.capacity
  pub positive : 0 < cache.capacity

-- The entries after an insertion, by its three branches.
abbrev pub updated : ℕ → ℕ → Entry → Entry
updated now latency old = record old { latency_us = latency; timestamp = now }

abbrev pub entry_of : ℕ → Node → ℕ → Entry
entry_of now node latency = record {
  addr = node.addr;
  port = node.port;
  latency_us = latency;
  timestamp = now;
}

module _ (start now : ℕ) (cache : Cache) (node : Node) (latency : ℕ) where
  pub insert_found :
      (i : ℕ)
      → find (is_at node.addr node.port) cache.entries ≡ some i
      → (insert start now cache node latency).entries
        ≡ set cache.entries i (updated now latency (get_or cache.entries i no_entry))
  unfolding insert
  insert_found i f = ground (arith, f)

  pub insert_room :
      find (is_at node.addr node.port) cache.entries ≡ none
      → ltb (length cache.entries) cache.capacity ≡ true
      → (insert start now cache node latency).entries
        ≡ cache.entries ++ entry_of now node latency ∷ []
  unfolding insert
  insert_room f room = ground (arith, f, room)

  pub insert_full :
      find (is_at node.addr node.port) cache.entries ≡ none
      → ltb (length cache.entries) cache.capacity ≡ false
      → (insert start now cache node latency).entries
        ≡ set cache.entries (oldest_loop cache.entries 0 0 start) (entry_of now node latency)
  unfolding insert
  insert_full f full = ground (arith, f, full)
