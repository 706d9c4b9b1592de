-- ===== src/Buffer.antt =====
-- src/Buffer/buffer.c: byte buffers. A buffer is the list of its bytes; `size` is its length.
-- The reference counts, and buffers that share the memory of their maker, are not modelled.
pub mod Laws
mod Tests
use Prim.Native.Nat.{bit_and, bit_or, bit_xor}
use poseidon.Prelude.{
  ℕ, zero, suc, ◌+◌, ◌-◌, List, [], ◌∷◌, ◌++◌, Option, none, some, map, ltb, ◌==◌, if◌then◌else◌,
  length, get_or, set, take, drop, replicate, Ordering,
}

-- buffer_create
unfoldable pub create : ℕ → List ℕ
create size = replicate size 0

-- buffer_copy_from_pointer: the shorter length is copied over the start of the buffer.
unfoldable pub copy_from_pointer : List ℕ → List ℕ → List ℕ
copy_from_pointer buf [] = buf
copy_from_pointer [] (y ∷ bytes) = []
copy_from_pointer (x ∷ buf) (y ∷ bytes) = y ∷ copy_from_pointer buf bytes

-- buffer_concat: `memcpy` of both into a new buffer.
unfoldable pub concat : List ℕ → List ℕ → List ℕ
concat buf1 buf2 = buf1 ++ buf2

-- buffer_slice
unfoldable pub slice : List ℕ → ℕ → ℕ → Option (List ℕ)
slice buf start end =
    if ltb end start
    then none
    else if ltb (length buf) end
    then none
    else if ltb (length buf) start
    then none
    else some (take (end - start) (drop start buf))

-- buffer_get_index and buffer_set_index, for an index in range.
unfoldable pub get_index : List ℕ → ℕ → ℕ
get_index buf index = get_or buf index 0

unfoldable pub set_index : List ℕ → ℕ → ℕ → List ℕ
set_index buf index value = set buf index value

-- The two loops of buffer_xor, buffer_or and buffer_and.
unfoldable pub combine : (ℕ → ℕ → ℕ) → List ℕ → List ℕ → List ℕ
combine op (x ∷ xs) (y ∷ ys) = op x y ∷ combine op xs ys
combine op (x ∷ xs) [] = map (λ b. op b 0) (x ∷ xs)
combine op [] ys = map (λ b. op b 0) ys

unfoldable pub exclusive : List ℕ → List ℕ → List ℕ
exclusive buf1 buf2 = combine bit_xor buf1 buf2

unfoldable pub either : List ℕ → List ℕ → List ℕ
either buf1 buf2 = combine bit_or buf1 buf2

unfoldable pub both : List ℕ → List ℕ → List ℕ
both buf1 buf2 = combine bit_and buf1 buf2

-- buffer_not: `~b` stored in a byte.
unfoldable pub complement : List ℕ → List ℕ
complement buf = map (λ b. 255 - b) buf

-- The loop of buffer_compare: `a` and `b` are set at each index where the bytes differ.
unfoldable pub compare_loop : List ℕ → List ℕ → ℕ → ℕ → ℕ × ℕ
compare_loop (x ∷ xs) (y ∷ ys) a b =
    if x == y then compare_loop xs ys a b else compare_loop xs ys x y
compare_loop _ _ a b = (a, b)

-- Its last three returns: 1, -1 and 0.
abbrev pub sign : ℕ × ℕ → Ordering
sign (a, b) = if ltb b a then Ordering.gt else if ltb a b then Ordering.lt else Ordering.eq

-- buffer_compare
unfoldable pub compare : List ℕ → List ℕ → Ordering
compare buf1 buf2 = sign (compare_loop buf1 buf2 (length buf1) (length buf2))
