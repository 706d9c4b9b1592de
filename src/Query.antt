-- ===== src/Query.antt =====
-- src/Network/Meridian/meridian_query.c: a query to a set of targets, and the table of the queries
-- in flight. Times are in microseconds. A reading of the clock is an argument; in a tick of the
-- table, which reads the clock for each test, `clock i` is what the reading `i` gives.
pub mod Closest
pub mod Laws
pub mod Ticks
mod Tests
use poseidon.Prelude.{
  ℕ, zero, suc, ◌+◌, ◌-◌, ◌*◌, ◌/◌, ◌%◌, ◌^◌, ◌≤◌, ◌<◌, ◌≡◌, refl, sym, ap, ◌∙◌, ◌↔◌, ◌⊎◌, inl, inr,
  Bool, true, false, not, ◌&&◌, ◌||◌, Option, none, some, List, [], ◌∷◌, ◌++◌, map, arith, ltb, leb,
  ◌==◌, if◌then◌else◌, ltb→lt, lt→ltb, leb→le, ==_iff, Bool-cases, Option-cases, List-cases,
  if_intro, eq_of_implications, same_bytes, same_bytes_iff, same_bytes_refl, ◌>>=◌, length, get_or,
  get_elem?, set, take, drop, reverse, replicate, length-append, length-replicate, length-set,
  length-take, length-drop, length-map, length-reverse, append_assoc, append-nil, reverse-append,
  reverse-reverse, get_or-append, get_or-set, get_or-take, get_or_ext, tests,
}
use poseidon.Prelude.Entries.{find}
use poseidon.Ring.{Node}

-- MERIDIAN_QUERY_MAX_TARGETS
abbrev pub max_targets : ℕ
max_targets = 256

-- `meridian_query_type_t`
pub data QueryType : Type 0 where
  gossip measure closest constraint info : QueryType

-- `meridian_query_status_t`
pub data Status : Type 0 where
  init waiting finished failed : Status

-- `meridian_query_t`. The field `num_targets` is the length of `targets`; `latencies` is the whole
-- array. `user_ctx` is left out.
pub record Query : Type 0 where
  pub query_id : ℕ
  pub query_type : QueryType
  pub status : Status
  pub start_time : ℕ
  pub timeout : ℕ
  pub source : Option Node
  pub targets : List Node
  pub latencies : List ℕ
  pub num_measured : ℕ

-- meridian_query_create, at the time `now`.
unfoldable pub create : ℕ → ℕ → QueryType → ℕ → Query
create now query_id query_type timeout_ms = record {
  query_id = query_id;
  query_type = query_type;
  status = Status.init;
  start_time = now;
  timeout = timeout_ms / 1000 * 1000000 + timeout_ms % 1000 * 1000;
  source = none;
  targets = [];
  latencies = replicate max_targets 0;
  num_measured = 0;
}

-- meridian_query_add_target: whether it returns 0, and the query.
unfoldable pub add_target : Query → Node → Bool × Query
add_target query node =
    if leb max_targets (length query.targets)
    then (false, query)
    else (true, record query { targets = query.targets ++ node ∷ [] })

-- meridian_query_set_latency
unfoldable pub set_latency : Query → ℕ → ℕ → Bool × Query
set_latency query target_idx latency =
    if leb (length query.targets) target_idx then (false, query) else (
      true,
      record query {
        latencies = set query.latencies target_idx latency;
        num_measured = (query.num_measured + 1) % 2 ^ 64;
      },
    )

-- The loop of meridian_query_get_closest, over the latencies from index `i` on.
unfoldable pub closest_loop : List ℕ → ℕ → ℕ → ℕ → ℕ
closest_loop [] i closest_idx closest_latency = closest_idx
closest_loop (latency ∷ rest) i closest_idx closest_latency =
    let closer = ltb latency closest_latency in
    closest_loop rest (suc i) (if closer then i else closest_idx)
      (if closer then latency else closest_latency)

-- meridian_query_get_closest
unfoldable pub get_closest : Query → Option Node
get_closest query =
    if length query.targets == 0
    then none
    else get_elem? query.targets (
        closest_loop (drop 1 (take (length query.targets) query.latencies)) 1 0
          (get_or query.latencies 0 0))

-- meridian_query_is_expired, at the time `now`.
unfoldable pub is_expired : ℕ → Query → Bool
is_expired now query = ltb (query.start_time + query.timeout) now

-- meridian_query_is_finished
unfoldable pub is_finished : Query → Bool
is_finished query = elim query.status [ Status.finished ↦ true | Status.failed ↦ true | _ ↦ false ]

-- meridian_query_finish
unfoldable pub finish : Query → Query
finish query = record query { status = Status.finished }

-- The loop of the factories: `for (i = 0; i < num_targets && i < MAX_TARGETS; i++)`, with room for
-- `n` more rounds.
unfoldable pub add_targets : ℕ → Query → List Node → Query
add_targets n query [] = query
add_targets zero query (node ∷ targets) = query
add_targets (suc n) query (node ∷ targets) = add_targets n (add_target query node).1 targets

-- meridian_gossip_query_create
unfoldable pub create_gossip : ℕ → ℕ → Option Node → List Node → ℕ → Query
create_gossip now query_id source targets timeout_ms =
    let query = create now query_id QueryType.gossip timeout_ms in
    add_targets max_targets (record query { source = source }) targets

-- meridian_closest_query_create
unfoldable pub create_closest : ℕ → ℕ → Option Node → List Node → ℕ → Query
create_closest now query_id source targets timeout_ms =
    let query = create now query_id QueryType.closest timeout_ms in
    add_targets max_targets (record query { source = source }) targets

-- meridian_measure_query_create
unfoldable pub create_measure : ℕ → ℕ → Option Node → Option Node → ℕ → Query
create_measure now query_id source target timeout_ms =
    let query = create now query_id QueryType.measure timeout_ms in
    let query = record query { source = source } in
    elim target [ none ↦ query | some node ↦ (add_target query node).1 ]

-- `meridian_query_table_t`. The field `count` is the length of `queries`.
pub record QueryTable : Type 0 where
  pub queries : List Query
  pub capacity : ℕ

-- meridian_query_table_create
unfoldable pub create_table : ℕ → QueryTable
create_table capacity = record { queries = []; capacity = if capacity == 0 then 64 else capacity }

-- meridian_query_table_insert
unfoldable pub insert : QueryTable → Query → QueryTable
insert table query = record {
  queries = table.queries ++ query ∷ [];
  capacity =
      if leb table.capacity (length table.queries)
      then table.capacity * 2 % 2 ^ 64
      else table.capacity;
}

abbrev pub has_id : ℕ → Query → Bool
has_id query_id query = query.query_id == query_id

-- The removal of the entry at `i`: the entries after it move down.
abbrev pub remove_at : List Query → ℕ → List Query
remove_at queries i = take i queries ++ drop (suc i) queries

-- meridian_query_table_remove: whether it returns 0, and the table.
unfoldable pub remove : QueryTable → ℕ → Bool × QueryTable
remove table query_id = elim (find (has_id query_id) table.queries) [
  | some i ↦ (true, record table { queries = remove_at table.queries i })
  | none ↦ (false, table)
]

-- meridian_query_table_lookup
unfoldable pub lookup : QueryTable → ℕ → Option Query
lookup table query_id = find (has_id query_id) table.queries >>= λ i. get_elem? table.queries i

-- The first loop of a tick counts, from the reading `i` on.
unfoldable pub count_expired : (ℕ → ℕ) → ℕ → List Query → ℕ
count_expired clock i [] = 0
count_expired clock i (query ∷ queries) =
    (if is_expired (clock i) query then 1 else 0) + count_expired clock (suc i) queries

-- The second loop takes the expired queries out and moves the others to the front.
unfoldable pub partition : (ℕ → ℕ) → ℕ → List Query → List Query × List Query
partition clock i [] = ([], [])
partition clock i (query ∷ queries) =
    let (expired, kept) = partition clock (suc i) queries in
    if is_expired (clock i) query then (query ∷ expired, kept) else (expired, query ∷ kept)

-- meridian_query_table_tick: the expired queries and the table; `none` stands for a write past the
-- end of the array of expired queries, which has as many slots as the first loop counted.
unfoldable pub tick : (ℕ → ℕ) → QueryTable → Option (List Query × QueryTable)
tick clock table =
    let count = count_expired clock 0 table.queries in
    if count == 0
    then some ([], table)
    else let (expired, kept) = partition clock (length table.queries) table.queries in
      if ltb count (length expired) then none else some (expired, record table { queries = kept })
