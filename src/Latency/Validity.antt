-- ===== src/Latency/Validity.antt =====
-- Insertions into the cache and its validity, and evictions from it.
use poseidon.Prelude.{
  ℕ, ◌≤◌, ◌<◌, ◌≡◌, refl, ◌∙◌, inl, inr, none, some, List, [], ◌∷◌, arith, ltb, if◌then◌else◌,
  Bool-cases, Option-cases, ◌>>=◌, length, get_or, length-append, length-set,
}
use poseidon.Prelude.Entries.{
  find, filter, count, count_of_absent, count_of_present, count-append, count-set, find-lt,
}
use poseidon.Ring.{Node}
use poseidon.Latency.{
  Entry, Cache, no_entry, is_at, is_fresh, insert, get, evict_expired, oldest_loop,
}
use poseidon.Latency.Search.{latency_at, get_lem, count_same}
use poseidon.Latency.Branches.{IsValid, updated, entry_of, insert_found, insert_room, insert_full}
use poseidon.Latency.Oldest.{oldest_lt}

capacity-insert :
    (start now : ℕ) (cache : Cache) (node : Node) (latency : ℕ)
    → (insert start now cache node latency).capacity ≡ cache.capacity
unfolding insert
capacity-insert start now cache node latency =
    elim (Option-cases (find (is_at node.addr node.port) cache.entries)) [
      | inr (i, f) ↦ ground (arith, f)
      | inl f ↦ elim (Bool-cases (ltb (length cache.entries) cache.capacity)) [
        | inl room ↦ ground (arith, f, room)
        | inr full ↦ ground (arith, f, full)
      ]
    ]

length-insert :
    (start now : ℕ) (cache : Cache) (node : Node) (latency : ℕ)
    → length cache.entries ≤ cache.capacity
    → length (insert start now cache node latency).entries ≤ cache.capacity
length-insert start now cache node latency bounded =
    elim (Option-cases (find (is_at node.addr node.port) cache.entries)) [
      | inr (i, f) ↦ rw (insert_found start now cache node latency i f, length-set) bounded
      | inl f ↦ elim (Bool-cases (ltb (length cache.entries) cache.capacity)) [
        | inl room ↦
            rw (insert_room start now cache node latency f room, length-append)
              (ground (arith, room))
        | inr full ↦ rw (insert_full start now cache node latency f full, length-set) bounded
      ]
    ]

count-insert :
    (start now : ℕ) (cache : Cache) (node : Node) (latency a p : ℕ)
    → IsValid cache
    → count (is_at a p) (insert start now cache node latency).entries ≤ 1
count-insert start now cache node latency a p valid =
    elim (Option-cases (find (is_at node.addr node.port) cache.entries)) [
      | inr (i, f) ↦
          let old : Entry = get_or cache.entries i no_entry in
          rw (insert_found start now cache node latency i f) (
            omega (
              arith,
              valid.unique a p,
              count-set (is_at a p) cache.entries i (updated now latency old) no_entry
                  (find-lt (is_at node.addr node.port) cache.entries i f),
            ))
      | inl f ↦
          let absent : count (is_at node.addr node.port) cache.entries ≡ 0 =
            count_of_absent (is_at node.addr node.port) cache.entries f in
          elim (Bool-cases (ltb (length cache.entries) cache.capacity)) [
            | inl room ↦
                rw (insert_room start now cache node latency f room, count-append)
                  (ground (
                    arith,
                    absent,
                    valid.unique a p,
                    count_same node.addr node.port a p cache.entries,
                  ))
            | inr full ↦
                let some_left : 0 < length cache.entries = ground (arith, full, valid.positive) in
                rw (insert_full start now cache node latency f full) (
                  ground (
                    arith,
                    absent,
                    valid.unique a p,
                    count_same node.addr node.port a p cache.entries,
                    count-set (is_at a p) cache.entries (oldest_loop cache.entries 0 0 start)
                        (entry_of now node latency) no_entry
                        (oldest_lt cache.entries start some_left),
                  ))
          ]
    ]

pub insert-IsValid :
    (start now : ℕ) (cache : Cache) (node : Node) (latency : ℕ)
    → IsValid cache
    → IsValid (insert start now cache node latency)
insert-IsValid start now cache node latency valid =
    let same : (insert start now cache node latency).capacity ≡ cache.capacity =
      capacity-insert start now cache node latency in
    record {
      unique = λ a p. count-insert start now cache node latency a p valid;
      bounded = rw same (length-insert start now cache node latency valid.bounded);
      positive = rw same valid.positive;
    }

latency_at-filter :
    (now a p : ℕ) (es : List Entry)
    → count (is_at a p) es ≤ 1
    → latency_at a p (filter (is_fresh now) es) ≡ (
        find (is_at a p) es >>= λ i.
        if is_fresh now (get_or es i no_entry)
        then some (get_or es i no_entry).latency_us
        else none)
unfolding find
latency_at-filter now a p [] h = refl
latency_at-filter now a p (e ∷ es) h = elim (Option-cases (find (is_at a p) es)) [
  | inl f ↦ ground (arith, h, f, latency_at-filter now a p es, count_of_absent (is_at a p) es f)
  | inr (i, f) ↦
      ground (arith, h, f, latency_at-filter now a p es, count_of_present (is_at a p) es i f)
]

-- After an eviction, a node has the latency it had where its entry is fresh, and none where it has
-- expired.
pub get-evict_expired :
    (now : ℕ) (cache : Cache) (node : Node)
    → IsValid cache
    → get (evict_expired now cache) node ≡ (
        find (is_at node.addr node.port) cache.entries >>= λ i.
        if is_fresh now (get_or cache.entries i no_entry)
        then some (get_or cache.entries i no_entry).latency_us
        else none)
unfolding evict_expired
get-evict_expired now cache node valid =
    get_lem (evict_expired now cache) node
    ∙ latency_at-filter now node.addr node.port cache.entries (valid.unique node.addr node.port)
