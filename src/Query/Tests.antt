-- ===== src/Query/Tests.antt =====
-- A query with two targets, and a table of two queries that expire one after the other.
use poseidon.Prelude.{◌+◌, ◌<◌, ◌≡◌, refl, ◌↔◌, not, none, some, [], arith}
use poseidon.Prelude.Entries.{filter, count}
use poseidon.Ring.{Node}
use poseidon.Query.{
  Query, QueryTable, QueryType, create, create_table, insert, remove, lookup, tick, add_target,
  set_latency, get_closest, is_expired, has_id,
}
use poseidon.Query.Ticks.{two_readings, tick_lem, tick_overflows}

abbrev near : Node
near = record { hash = []; addr = 1; port = 2; flags = 0 }

abbrev far : Node
far = record { hash = []; addr = 3; port = 4; flags = 0 }

abbrev short : Query
unfolding create
short = create 0 7 QueryType.closest 1

abbrev long : Query
unfolding create
long = create 0 8 QueryType.closest 2

abbrev measured : Query
unfolding add_target set_latency
measured = (set_latency (set_latency (add_target (add_target short far).1 near).1 0 90).1 1 20).1

get_closest_test : get_closest measured ≡ some near
unfolding get_closest poseidon.Query.closest_loop measured short
get_closest_test = refl

abbrev both : QueryTable
unfolding create_table insert
both = insert (insert (create_table 0) short) long

tick_lem_example :
    tick (λ i. 1500 + i) both
    ≡ some (
      filter (is_expired 1500) both.queries,
      record both { queries = filter (λ q. not (is_expired 1500 q)) both.queries },
    )
unfolding is_expired both short long
tick_lem_example =
    tick_lem (λ i. 1500 + i) 4 both (omega arith) (λ i h. ground arith, (λ i h. ground arith, refl))

tick_overflows_example : (tick (two_readings 1500 2500 2) both ≡ none) ↔ (
    (0 < count (is_expired 1500) both.queries)
    × (count (is_expired 1500) both.queries < count (is_expired 2500) both.queries))
unfolding both
tick_overflows_example = tick_overflows both 1500 2500
