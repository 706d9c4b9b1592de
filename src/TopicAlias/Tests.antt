-- ===== src/TopicAlias/Tests.antt =====
-- A name with two topics.
use poseidon.Prelude.{ℕ, List, [], ◌∷◌}
use poseidon.TopicAlias.{Registry, create, register}

abbrev name : List ℕ
name = 110 ∷ []

abbrev reg : Registry
reg = (register (register (create 4) name (1 ∷ [])).1 name (2 ∷ [])).1
