-- ===== src/Bitset/Bitwise.antt =====
-- The bitwise operations on whole bit sets, bit by bit.
use Prim.Native.Nat.{bit_and, bit_or, bit_xor, max}
use mathlib.Core.Bool.{xor}
use poseidon.Prelude.{
  ℕ, zero, suc, ◌/◌, ◌%◌, ◌<◌, ◌-◌, ◌≡◌, refl, List, [], ◌∷◌, map, not, ◌&&◌, ◌||◌, arith, length,
  length-map, get_or, get_or_beyond, ltb,
}
use poseidon.Prelude.Bits.{
  test_bit, test_bit-bit_or, test_bit-bit_and, test_bit-bit_xor, test_bit-zero, test_bit_complement,
  bit_or_comm, bit_and_comm, bit_xor_comm,
}
use poseidon.Bitset.{Bitset, size, get, bitwise_op, exclusive, both, either, complement}
use poseidon.Bitset.Access.{get-eq-test_bit}

-- Byte by byte, whatever the lengths; `op 0 0` is read past both ends.
module _ (op : ℕ → ℕ → ℕ) (op_zero : op 0 0 ≡ 0) where
  get_or-map_zero : (xs : List ℕ) (i : ℕ) → get_or (map (λ b. op b 0) xs) i 0 ≡ op (get_or xs i 0) 0
  get_or-map_zero [] i = ground arith
  get_or-map_zero (x ∷ xs) zero = refl
  get_or-map_zero (x ∷ xs) (suc i) = get_or-map_zero xs i

module _ (op : ℕ → ℕ → ℕ) (op_zero : op 0 0 ≡ 0) (op_comm : (b : ℕ) → op b 0 ≡ op 0 b) where
  get_or-bitwise_op :
      (xs ys : List ℕ) (i : ℕ)
      → get_or (bitwise_op op xs ys) i 0 ≡ op (get_or xs i 0) (get_or ys i 0)
  unfolding bitwise_op
  get_or-bitwise_op (x ∷ xs) (y ∷ ys) zero = refl
  get_or-bitwise_op (x ∷ xs) (y ∷ ys) (suc i) = get_or-bitwise_op xs ys i
  get_or-bitwise_op (x ∷ xs) [] i = get_or-map_zero op op_zero (x ∷ xs) i
  get_or-bitwise_op [] ys i =
      ground (arith, get_or-map_zero op op_zero ys i, op_comm (get_or ys i 0))

pub size-bitwise_op :
    (op : ℕ → ℕ → ℕ) (xs ys : List ℕ) → length (bitwise_op op xs ys) ≡ max (length xs) (length ys)
unfolding bitwise_op
size-bitwise_op op (x ∷ xs) (y ∷ ys) = omega (arith, size-bitwise_op op xs ys)
size-bitwise_op op (x ∷ xs) [] = omega (arith, length-map (λ (b : ℕ). op b 0) (x ∷ xs))
size-bitwise_op op [] ys = omega (arith, length-map (λ (b : ℕ). op b 0) ys)

module _ (a b : Bitset) (i : ℕ) where
  pub get-either : get (either a b) i ≡ (get a i || get b i)
  unfolding either
  get-either =
      simp (get-eq-test_bit, get_or-bitwise_op bit_or refl (λ b. bit_or_comm b 0), test_bit-bit_or)

  pub get-both : get (both a b) i ≡ (get a i && get b i)
  unfolding both
  get-both =
      simp
        (get-eq-test_bit, get_or-bitwise_op bit_and refl (λ b. bit_and_comm b 0), test_bit-bit_and)

  pub get-exclusive : get (exclusive a b) i ≡ xor (get a i) (get b i)
  unfolding exclusive
  get-exclusive =
      simp
        (get-eq-test_bit, get_or-bitwise_op bit_xor refl (λ b. bit_xor_comm b 0), test_bit-bit_xor)

-- Every byte is below 256.
abbrev pub IsBytes : List ℕ → Type 0
IsBytes [] = Unit
IsBytes (x ∷ xs) = (x < 256) × IsBytes xs

test_bit-map_complement :
    (xs : List ℕ) (i k : ℕ)
    → IsBytes xs
    → k < 8
    → i < length xs
    → test_bit (get_or (map (λ b. 255 - b) xs) i 0) k ≡ not (test_bit (get_or xs i 0) k)
test_bit-map_complement [] i k v hk h = absurd (omega arith)
test_bit-map_complement (x ∷ xs) zero k v hk h = test_bit_complement x k v.0 hk
test_bit-map_complement (x ∷ xs) (suc i) k v hk h =
    test_bit-map_complement xs i k v.1 hk (omega arith)

-- Inside the set, and only there, `complement` flips every bit.
pub get-complement :
    (s : Bitset) (i : ℕ)
    → IsBytes s.bytes
    → get (complement s) i ≡ (ltb (i / 8) (size s) && not (get s i))
unfolding complement
get-complement s i v =
    rw (get-eq-test_bit (complement s) i, get-eq-test_bit s i)
      (ground (
        arith,
        test_bit-map_complement s.bytes (i / 8) (i % 8) v,
        get_or_beyond (map (λ (b : ℕ). 255 - b) s.bytes) (i / 8) 0,
        length-map (λ (b : ℕ). 255 - b) s.bytes,
        test_bit-zero (i % 8),
      ))
