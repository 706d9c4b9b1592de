-- ===== src/Buffer/Tests.antt =====
-- Slices and comparisons of small buffers.
use poseidon.Prelude.{ℕ, List, [], ◌∷◌}

abbrev four : List ℕ
four = 1 ∷ 2 ∷ 3 ∷ 4 ∷ []

-- The first bytes say "less", the last ones "greater".
