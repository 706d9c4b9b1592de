-- ===== src/Bitset.antt =====
-- src/Bloom/bitset.c and bitset.h: a bit set over a byte array that grows on demand.
pub mod Access
pub mod Bitwise
pub mod Compare
mod Tests
use Prim.Native.Nat.{bit_and, bit_or, bit_xor}
use poseidon.Prelude.{
  ℕ, zero, suc, ◌+◌, ◌-◌, ◌*◌, ◌/◌, ◌%◌, ◌^◌, Ordering, List, [], ◌∷◌, ◌++◌, map, Bool, true, false,
  ◌&&◌, ltb, leb, ◌==◌, if◌then◌else◌, length, get_or, set, take, replicate,
}
use poseidon.Prelude.Bits.{test_bit}

-- `bitset_t`. The field `size` is the length of `bytes`.
pub record Bitset : Type 0 where
  pub bytes : List ℕ

-- bitset_create
unfoldable pub create : ℕ → Bitset
create byte_size = record { bytes = replicate byte_size 0 }

-- bitset_size and bitset_bit_count
abbrev pub size : Bitset → ℕ
size s = length s.bytes

unfoldable pub bit_count : Bitset → ℕ
bit_count s = size s * 8

-- bitset_ensure_capacity: the old bytes, then zeros up to `byte_index`.
unfoldable pub ensure_capacity : List ℕ → ℕ → List ℕ
ensure_capacity bytes byte_index =
    if ltb byte_index (length bytes)
    then bytes
    else bytes ++ replicate (byte_index + 1 - length bytes) 0

-- bitset_get
unfoldable pub get : Bitset → ℕ → Bool
get s bit_index =
    if leb (size s) (bit_index / 8)
    then false
    else test_bit (get_or s.bytes (bit_index / 8) 0) (bit_index % 8)

-- The byte that bitset_set stores: `|= 1 << k`, or `&= ~(1 << k)` on a byte.
unfoldable pub write_bit : ℕ → ℕ → Bool → ℕ
write_bit x k value = if value then bit_or x (2 ^ k) else bit_and x (255 - 2 ^ k)

-- bitset_set and bitset_update: the old value, and the new set.
unfoldable pub put : Bitset → ℕ → Bool → Bool × Bitset
put s bit_index value =
    let byte_index = bit_index / 8 in
    let bit_offset = bit_index % 8 in
    let grown = ensure_capacity s.bytes byte_index in
    let old = get_or grown byte_index 0 in
    (
      test_bit old bit_offset,
      record { bytes = set grown byte_index (write_bit old bit_offset value) },
    )

-- The loop of bitset_compare, with the tails that it starts from.
unfoldable pub tails : List ℕ → List ℕ → ℕ → ℕ → ℕ × ℕ
tails (x ∷ xs) (y ∷ ys) a_tail b_tail = if x == y then tails xs ys a_tail b_tail else (x, y)
tails _ _ a_tail b_tail = (a_tail, b_tail)

-- The last three returns: 1, -1 and 0.
abbrev pub sign : ℕ × ℕ → Ordering
sign (a_tail, b_tail) =
    if ltb b_tail a_tail
    then Ordering.gt
    else if ltb a_tail b_tail
    then Ordering.lt
    else Ordering.eq

-- bitset_compare
unfoldable pub compare : Bitset → Bitset → Ordering
unfolding tails
compare a b = sign (tails a.bytes b.bytes (size a) (size b))

-- bitset_eq
unfoldable pub same : Bitset → Bitset → Bool
unfolding compare
same a b = elim (compare a b) [ Ordering.eq ↦ true | _ ↦ false ]

-- bitset_bitwise_op: past the shorter set, each byte of the longer is combined with 0.
unfoldable pub bitwise_op : (ℕ → ℕ → ℕ) → List ℕ → List ℕ → List ℕ
bitwise_op op (x ∷ xs) (y ∷ ys) = op x y ∷ bitwise_op op xs ys
bitwise_op op (x ∷ xs) [] = map (λ b. op b 0) (x ∷ xs)
bitwise_op op [] ys = map (λ b. op b 0) ys

-- bitset_xor, bitset_and, bitset_or
unfoldable pub exclusive : Bitset → Bitset → Bitset
exclusive a b = record { bytes = bitwise_op bit_xor a.bytes b.bytes }

unfoldable pub both : Bitset → Bitset → Bitset
both a b = record { bytes = bitwise_op bit_and a.bytes b.bytes }

unfoldable pub either : Bitset → Bitset → Bitset
either a b = record { bytes = bitwise_op bit_or a.bytes b.bytes }

-- bitset_not: `~b` stored in a byte.
unfoldable pub complement : Bitset → Bitset
complement a = record { bytes = map (λ b. 255 - b) a.bytes }

-- The loop of bitset_compact on `size`.
unfoldable pub compact_size : List ℕ → ℕ → ℕ
compact_size bytes zero = zero
compact_size bytes (suc n) =
    if ltb 1 (suc n) && get_or bytes n 0 == 0 then compact_size bytes n else suc n

-- bitset_compact
unfoldable pub compact : Bitset → Bitset
compact s = record { bytes = take (compact_size s.bytes (size s)) s.bytes }
