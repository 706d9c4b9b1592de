-- ===== src/Ring/Tests.antt =====
-- A set with lists of one and two nodes, and the binary logarithm cut at 3.
use poseidon.Prelude.{ℕ, [], ◌∷◌, ltb, if◌then◌else◌}
use poseidon.Ring.{ℤ, pos, Node, RingSet, create, insert}
use poseidon.Ring.Keeps.{IsValid, create-IsValid, insert-IsValid}

abbrev floor_log : ℕ → ℕ → ℤ
floor_log latency base = if ltb latency 2 then pos 0 else if ltb latency 4 then pos 1 else pos 2

abbrev node : Node
node = record { hash = 1 ∷ []; addr = 10; port = 2; flags = 0 }

abbrev start : RingSet
start = create 1 2 (pos 2)

abbrev one_node : RingSet
one_node = (insert floor_log start node 3).1

one_node-IsValid : IsValid one_node
one_node-IsValid = insert-IsValid floor_log start node 3 (create-IsValid 1 2 (pos 2))
