-- ===== src/Latency/Tests.antt =====
-- A full cache of two entries, of which the second is the older.
use poseidon.Prelude.{ℕ, ◌≡◌, refl, ◌&&◌, none, some, [], ◌∷◌, arith, if◌then◌else◌, get_or}
use poseidon.Prelude.Entries.{find}
use poseidon.Ring.{Node}
use poseidon.Latency.{Cache, Entry, no_entry, is_at, insert, get, evict_expired}
use poseidon.Latency.Branches.{IsValid}
use poseidon.Latency.Oldest.{IsOldest}
use poseidon.Latency.Insertion.{same_node, evicts, get-insert}

abbrev full : Cache
full = record {
  entries =
      record { addr = 1; port = 10; latency_us = 500; timestamp = 40 }
      ∷ record { addr = 2; port = 20; latency_us = 700; timestamp = 30 }
      ∷ [];
  capacity = 2;
}

abbrev node_at : ℕ → ℕ → Node
node_at addr port = record { hash = []; addr = addr; port = port; flags = 0 }

full-IsValid : IsValid full
full-IsValid = record {
  unique = λ a p. ground arith;
  bounded = omega arith;
  positive = omega arith;
}

evicted_test : get (insert 50 51 full (node_at 3 30) 900) (node_at 2 20) ≡ none
unfolding get insert find poseidon.Latency.oldest_loop
evicted_test = refl

kept_test : get (insert 50 51 full (node_at 3 30) 900) (node_at 1 10) ≡ some 500
unfolding get insert find poseidon.Latency.oldest_loop
kept_test = refl

expired_test : get (evict_expired 5000035 full) (node_at 2 20) ≡ none
unfolding get evict_expired find
expired_test = refl

get-insert_example :
    (m : ℕ) × IsOldest full.entries m
    × ((other : Node)
        → get (insert 50 51 full (node_at 3 30) 900) other ≡ (
            if same_node (node_at 3 30) other
            then some 900
            else if evicts full (node_at 3 30)
                && is_at other.addr other.port (get_or full.entries m no_entry)
            then none
            else get full other))
get-insert_example =
    get-insert 50 51 full (node_at 3 30) 900 full-IsValid (omega arith, (omega arith, refl))
