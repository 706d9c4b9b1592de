-- ===== src/Bloom/Tests.antt =====
-- A filter of sixteen bits.
use poseidon.Prelude.{ℕ, ◌+◌, ◌*◌, List, [], ◌∷◌}

abbrev sum : List ℕ → ℕ
sum [] = 0
sum (b ∷ bytes) = b + 31 * sum bytes

abbrev hash : List ℕ → ℕ → ℕ
hash bytes seed = sum bytes + 7 * seed

abbrev first : List ℕ
first = 5 ∷ 9 ∷ []

abbrev second : List ℕ
second = 6 ∷ []
