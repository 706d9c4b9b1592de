-- ===== src/Latency.antt =====
-- src/Network/Meridian/meridian_measure.c: the cache of the latencies that were measured. Times are
-- in microseconds, and each reading of the clock is an argument.
pub mod Search
pub mod Branches
pub mod Oldest
pub mod Insertion
pub mod Validity
mod Tests
use poseidon.Prelude.{
  ℕ, zero, suc, ◌+◌, ◌-◌, ◌*◌, ◌/◌, ◌%◌, ◌^◌, ◌≤◌, ◌<◌, ◌≡◌, refl, sym, ap, ◌∙◌, ◌↔◌, ◌⊎◌, inl, inr,
  Bool, true, false, not, ◌&&◌, ◌||◌, Option, none, some, List, [], ◌∷◌, ◌++◌, map, arith, ltb, leb,
  ◌==◌, if◌then◌else◌, ltb→lt, lt→ltb, leb→le, ==_iff, Bool-cases, Option-cases, List-cases,
  if_intro, eq_of_implications, same_bytes, same_bytes_iff, same_bytes_refl, ◌>>=◌, length, get_or,
  get_elem?, set, take, drop, reverse, replicate, length-append, length-replicate, length-set,
  length-take, length-drop, length-map, length-reverse, append_assoc, append-nil, reverse-append,
  reverse-reverse, get_or-append, get_or-set, get_or-take, get_or_ext, tests,
}
use poseidon.Prelude.Entries.{find, filter}
use poseidon.Ring.{Node}

-- MERIDIAN_PROBE_CACHE_SIZE and MERIDIAN_PROBE_CACHE_TIMEOUT_US
abbrev pub default_size : ℕ
default_size = 1024

abbrev pub cache_timeout : ℕ
cache_timeout = 5 * 1000 * 1000

-- `meridian_measure_entry_t`
pub record Entry : Type 0 where
  pub addr : ℕ
  pub port : ℕ
  pub latency_us : ℕ
  pub timestamp : ℕ

-- `meridian_latency_cache_t`. The field `count` is the length of `entries`.
pub record Cache : Type 0 where
  pub entries : List Entry
  pub capacity : ℕ

-- An entry of the cleared memory.
abbrev pub no_entry : Entry
no_entry = record { addr = 0; port = 0; latency_us = 0; timestamp = 0 }

-- The test of the searches: the entry is of this address and port.
abbrev pub is_at : ℕ → ℕ → Entry → Bool
is_at addr port entry = entry.addr == addr && entry.port == port

-- meridian_latency_cache_create
unfoldable pub create : ℕ → Cache
create capacity = record {
  entries = [];
  capacity = if capacity == 0 then default_size else capacity;
}

-- The loop that looks for the oldest entry, from the index `i` on.
unfoldable pub oldest_loop : List Entry → ℕ → ℕ → ℕ → ℕ
oldest_loop [] i oldest_idx oldest = oldest_idx
oldest_loop (entry ∷ entries) i oldest_idx oldest =
    let older = ltb entry.timestamp oldest in
    oldest_loop entries (suc i) (if older then i else oldest_idx)
      (if older then entry.timestamp else oldest)

-- meridian_latency_cache_insert. The search for the oldest entry begins at the time `start`; the
-- measurement is stored with the time `now`.
unfoldable pub insert : ℕ → ℕ → Cache → Node → ℕ → Cache
insert start now cache node latency_us =
    let entry : Entry = record {
      addr = node.addr;
      port = node.port;
      latency_us = latency_us;
      timestamp = now;
    } in
    elim (find (is_at node.addr node.port) cache.entries) [
      | some i ↦
          let old = get_or cache.entries i no_entry in
          record cache {
            entries = set cache.entries i (record old { latency_us = latency_us; timestamp = now });
          }
      | none ↦
          if ltb (length cache.entries) cache.capacity
          then record cache { entries = cache.entries ++ entry ∷ [] }
          else record cache {
            entries = set cache.entries (oldest_loop cache.entries 0 0 start) entry;
          }
    ]

-- meridian_latency_cache_get
unfoldable pub get : Cache → Node → Option ℕ
get cache node = elim (find (is_at node.addr node.port) cache.entries) [
  | none ↦ none
  | some i ↦ some (get_or cache.entries i no_entry).latency_us
]

-- The test of the eviction: the age, which is below 0 where the clock went back, is below the
-- timeout.
abbrev pub is_fresh : ℕ → Entry → Bool
is_fresh now entry = ltb now (entry.timestamp + cache_timeout)

-- meridian_latency_cache_evict_expired, at the time `now`.
unfoldable pub evict_expired : ℕ → Cache → Cache
evict_expired now cache = record cache { entries = filter (is_fresh now) cache.entries }
