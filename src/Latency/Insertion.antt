-- ===== src/Latency/Insertion.antt =====
-- What the cache gives for each node after an insertion.
use poseidon.Prelude.{
  ℕ, ◌<◌, ◌≡◌, sym, ap, ◌∙◌, inl, inr, Bool, true, false, ◌&&◌, Option, none, some, [], ◌∷◌, ◌++◌,
  arith, ltb, leb, ◌==◌, if◌then◌else◌, Bool-cases, Option-cases, length, get_or, set,
}
use poseidon.Prelude.Entries.{find, count, count_of_absent, count_of_get, find_passes, find-lt}
use poseidon.Ring.{Node}
use poseidon.Latency.{Entry, Cache, no_entry, is_at, insert, get, oldest_loop}
use poseidon.Latency.Search.{
  latency_at, get_lem, latency_of_absent, latency_at-append, latency_at-set, count_same, get_absent,
  get_present,
}
use poseidon.Latency.Branches.{IsValid, updated, entry_of, insert_found, insert_room, insert_full}
use poseidon.Latency.Oldest.{AllUntil, IsOldest, oldest_lt, oldest_loop-IsOldest}

-- The nodes have one address and port.
abbrev pub same_node : Node → Node → Bool
same_node node other = node.addr == other.addr && node.port == other.port

-- The cache is full, and has no latency of the node.
abbrev pub evicts : Cache → Node → Bool
evicts cache node =
    leb cache.capacity (length cache.entries)
    && elim (get cache node) [ none ↦ true | some latency ↦ false ]

module _ (a p : ℕ) (cache : Cache) (node : Node) (valid : IsValid cache) where
  updated_lem :
      (now latency i : ℕ)
      → find (is_at node.addr node.port) cache.entries ≡ some i
      → latency_at a p (set cache.entries i (updated now latency (get_or cache.entries i no_entry)))
        ≡ (if node.addr == a && node.port == p then some latency else latency_at a p cache.entries)
  updated_lem now latency i f =
      let old : Entry = get_or cache.entries i no_entry in
      let at : is_at node.addr node.port old ≡ true =
        find_passes (is_at node.addr node.port) cache.entries i no_entry f in
      let bound : i < length cache.entries =
        find-lt (is_at node.addr node.port) cache.entries i f in
      ground (
        arith,
        at,
        latency_at-set a p (updated now latency old) cache.entries i bound (valid.unique a p)
            (λ here. ground (
              arith,
              here,
              valid.unique a p,
              count_of_get (is_at a p) cache.entries i no_entry bound here,
            )),
      )

  module _ (f : find (is_at node.addr node.port) cache.entries ≡ none) where
    absent : (node.addr == a && node.port == p) ≡ true → count (is_at a p) cache.entries ≡ 0
    absent same =
        sym (count_same node.addr node.port a p cache.entries same)
        ∙ count_of_absent (is_at node.addr node.port) cache.entries f

    appended_lem :
        (now latency : ℕ)
        → latency_at a p (cache.entries ++ entry_of now node latency ∷ []) ≡ (
            if node.addr == a && node.port == p then some latency else latency_at a p cache.entries)
    appended_lem now latency = elim (Bool-cases (node.addr == a && node.port == p)) [
      | inl same ↦ ground (
        arith,
        same,
        latency_at-append a p cache.entries (entry_of now node latency),
        latency_of_absent a p cache.entries (absent same),
      )
      | inr apart ↦ elim (Option-cases (latency_at a p cache.entries)) [
        | inl e ↦
            ground
              (arith, apart, e, latency_at-append a p cache.entries (entry_of now node latency))
        | inr (l, e) ↦
            ground
              (arith, apart, e, latency_at-append a p cache.entries (entry_of now node latency))
      ]
    ]

    replaced_lem :
        (now latency m : ℕ)
        → m < length cache.entries
        → latency_at a p (set cache.entries m (entry_of now node latency)) ≡ (
            if node.addr == a && node.port == p
            then some latency
            else if is_at a p (get_or cache.entries m no_entry)
            then none
            else latency_at a p cache.entries)
    replaced_lem now latency m bound =
        latency_at-set a p (entry_of now node latency) cache.entries m bound (valid.unique a p)
          (λ same.
            ground (arith, absent same, count_of_get (is_at a p) cache.entries m no_entry bound))

insert_latency :
    (start now : ℕ) (cache : Cache) (node : Node) (latency a p : ℕ)
    → IsValid cache
    → latency_at a p (insert start now cache node latency).entries ≡ (
        if node.addr == a && node.port == p
        then some latency
        else if evicts cache node
            && is_at a p (get_or cache.entries (oldest_loop cache.entries 0 0 start) no_entry)
        then none
        else latency_at a p cache.entries)
insert_latency start now cache node latency a p valid =
    elim (Option-cases (find (is_at node.addr node.port) cache.entries)) [
      | inr (i, f) ↦
          ap (latency_at a p) (insert_found start now cache node latency i f)
          ∙ updated_lem a p cache node valid now latency i f
          ∙ ground (arith, get_present cache node i f)
      | inl f ↦ elim (Bool-cases (ltb (length cache.entries) cache.capacity)) [
        | inl room ↦
            ap (latency_at a p) (insert_room start now cache node latency f room)
            ∙ appended_lem a p cache node valid f now latency
            ∙ ground (arith, room)
        | inr full ↦
            let some_left : 0 < length cache.entries = ground (arith, full, valid.positive) in
            ap (latency_at a p) (insert_full start now cache node latency f full)
            ∙ replaced_lem a p cache node valid f now latency (oldest_loop cache.entries 0 0 start)
                (oldest_lt cache.entries start some_left)
            ∙ ground (arith, full, get_absent cache node f)
      ]
    ]

-- In a valid cache with no entry newer than the clock, after an insertion the latency of the node
-- is the one inserted. Where the cache was full and had no latency of the node, one entry, at
-- least as old as every other, is lost; every other node keeps its latency.
pub get-insert :
    (start now : ℕ) (cache : Cache) (node : Node) (latency : ℕ)
    → IsValid cache
    → AllUntil start cache.entries
    → (m : ℕ) × IsOldest cache.entries m
      × ((other : Node)
          → get (insert start now cache node latency) other ≡ (
              if same_node node other
              then some latency
              else if evicts cache node
                  && is_at other.addr other.port (get_or cache.entries m no_entry)
              then none
              else get cache other))
get-insert start now cache node latency valid until = (
  oldest_loop cache.entries 0 0 start,
  oldest_loop-IsOldest cache.entries start until,
  λ other.
      get_lem (insert start now cache node latency) other
      ∙ insert_latency start now cache node latency other.addr other.port valid
      ∙ ap
          (λ (o : Option ℕ).
            if same_node node other
            then some latency
            else if evicts cache node
                && is_at other.addr other.port
                    (get_or cache.entries (oldest_loop cache.entries 0 0 start) no_entry)
            then none
            else o)
          (sym (get_lem cache other)),
)
