-- ===== src/Wire/Parts.antt =====
-- Bytes that are written part after part, and each part read back.
use poseidon.Prelude.{ℕ, zero, suc, ◌+◌, ◌<◌, ◌≡◌, refl, List, [], ◌∷◌, ◌++◌, arith, length, get_or}
use poseidon.Prelude.Outcome.{done, read_bytes, read_bytes-here, read_bytes-skip}

-- A text in parts.
abbrev pub join : List (List ℕ) → List ℕ → List ℕ
join [] rest = rest
join (part ∷ parts) rest = part ++ join parts rest

abbrev pub offset_of : List (List ℕ) → ℕ → ℕ
offset_of parts zero = 0
offset_of [] (suc i) = 0
offset_of (part ∷ parts) (suc i) = length part + offset_of parts i

-- Each part is read at the sum of the lengths before it.
pub read_part :
    (parts : List (List ℕ)) (rest : List ℕ) (i offset n : ℕ)
    → i < length parts
    → offset ≡ offset_of parts i
    → n ≡ length (get_or parts i [])
    → read_bytes (join parts rest) offset n ≡ done (get_or parts i [])
read_part [] rest i offset n h e k = absurd (omega arith)
read_part (part ∷ parts) rest zero offset n h e k =
    rw (e, k) (read_bytes-here part (join parts rest))
read_part (part ∷ parts) rest (suc i) offset n h e k =
    rw (e, read_bytes-skip part (join parts rest) (offset_of parts i) n)
      (read_part parts rest i (offset_of parts i) n (omega arith) refl k)
