-- ===== src/Prelude/Bits.antt =====
-- The binary digits of a number, and what the native bit operations do to each of them.
use Prim.Native.Nat.{
  ℕ, zero, suc, ◌+◌, ◌-◌, ◌*◌, ◌/◌, ◌%◌, ◌^◌, ◌≤◌, ◌<◌, min, max, bit_and, bit_or, bit_xor, digits,
  differ, bit_and-bitwise, bit_or-bitwise, bit_xor-bitwise,
}
use mathlib.Core.Path.{◌≡◌, refl, ◌∙◌, ap}
use mathlib.Core.Logic.{inl, inr}
use mathlib.Core.Bool.{Bool, true, false, not, ◌&&◌, ◌||◌, xor, beq}
use native.Mathlib.Nat.{pow-suc}
use native.Mathlib.Omega.{arith}
use poseidon.Prelude.Tests.{◌==◌, ==_iff, Bool-cases, if◌then◌else◌}

-- Digit `k` of `x`, the lowest first.
pub bit_at : ℕ → ℕ → ℕ
bit_at zero x = x % 2
bit_at (suc k) x = bit_at k (x / 2)

pub bit_at-lt : (k x : ℕ) → bit_at k x < 2
unfolding bit_at
bit_at-lt zero x = omega arith
bit_at-lt (suc k) x = bit_at-lt k (x / 2)

bit_at-zero : (k : ℕ) → bit_at k 0 ≡ 0
unfolding bit_at
bit_at-zero zero = refl
bit_at-zero (suc k) = bit_at-zero k

-- What an operation on digits makes of each digit of its result.
module _ (z : ℕ → ℕ) (f : ℕ → ℕ → ℕ) (z_law : (k b : ℕ) → bit_at k (z b) ≡ f 0 (bit_at k b))
    (f_digit : (x y : ℕ) → x < 2 → y < 2 → f x y < 2) where
  bit_at-digits : (n a b k : ℕ) → a ≤ n → bit_at k (digits z f n a b) ≡ f (bit_at k a) (bit_at k b)
  unfolding bit_at
  bit_at-digits zero zero b k h = rw (bit_at-zero k) (z_law k b)
  bit_at-digits zero (suc a) b k h = absurd (omega arith)
  bit_at-digits (suc n) zero b k h = rw (bit_at-zero k) (z_law k b)
  bit_at-digits (suc n) (suc a) b zero h =
      let small : f (suc a % 2) (b % 2) < 2 =
        f_digit (suc a % 2) (b % 2) (omega arith) (omega arith) in
      omega arith
  bit_at-digits (suc n) (suc a) b (suc k) h =
      let small : f (suc a % 2) (b % 2) < 2 =
        f_digit (suc a % 2) (b % 2) (omega arith) (omega arith) in
      let halved : (digits z f n (suc a / 2) (b / 2) * 2 + f (suc a % 2) (b % 2)) / 2
          ≡ digits z f n (suc a / 2) (b / 2) =
        omega arith in
      rw halved (bit_at-digits n (suc a / 2) (b / 2) k (omega arith))

pub bit_at-bit_or : (k a b : ℕ) → bit_at k (bit_or a b) ≡ max (bit_at k a) (bit_at k b)
bit_at-bit_or k a b =
    rw bit_or-bitwise (
      bit_at-digits (λ y. y) max (λ k b. omega arith) (λ x y p q. omega arith) a a b k
        (omega arith))

pub bit_at-bit_and : (k a b : ℕ) → bit_at k (bit_and a b) ≡ min (bit_at k a) (bit_at k b)
bit_at-bit_and k a b = rw bit_and-bitwise (
    bit_at-digits (λ y. 0) min (λ k b. omega (arith, bit_at-zero k)) (λ x y p q. omega arith) a a b
      k (omega arith))

differ-zero : (k b : ℕ) → bit_at k b ≡ differ 0 (bit_at k b)
differ-zero k b = refl

differ-lt : (x y : ℕ) → x < 2 → y < 2 → differ x y < 2
differ-lt zero y p q = q
differ-lt (suc zero) zero p q = p
differ-lt (suc zero) (suc y) p q = omega arith
differ-lt (suc (suc x)) y p q = absurd (omega arith)

differ_digits : (x y : ℕ) → x < 2 → y < 2 → differ x y ≡ (if x == y then 0 else 1)
differ_digits zero zero p q = refl
differ_digits zero (suc zero) p q = refl
differ_digits (suc zero) zero p q = refl
differ_digits (suc zero) (suc zero) p q = refl
differ_digits (suc (suc x)) y p q = absurd (omega arith)
differ_digits x (suc (suc y)) p q = absurd (omega arith)

pub bit_at-bit_xor :
    (k a b : ℕ) → bit_at k (bit_xor a b) ≡ (if bit_at k a == bit_at k b then 0 else 1)
bit_at-bit_xor k a b = rw bit_xor-bitwise (
    bit_at-digits (λ y. y) differ differ-zero differ-lt a a b k (omega arith)
    ∙ differ_digits (bit_at k a) (bit_at k b) (bit_at-lt k a) (bit_at-lt k b))

-- A number is determined by its digits.
eq_of_bit_at_below : (n a b : ℕ) → a ≤ n → b ≤ n → ((k : ℕ) → bit_at k a ≡ bit_at k b) → a ≡ b
unfolding bit_at
eq_of_bit_at_below zero a b p q h = omega arith
eq_of_bit_at_below (suc n) a b p q h =
    omega (
      arith,
      h 0,
      eq_of_bit_at_below n (a / 2) (b / 2) (omega arith) (omega arith) (λ k. h (suc k)),
    )

pub eq_of_bit_at : (a b : ℕ) → ((k : ℕ) → bit_at k a ≡ bit_at k b) → a ≡ b
eq_of_bit_at a b h = eq_of_bit_at_below (a + b) a b (omega arith) (omega arith) h

-- `1 << k` has digit `k` alone.
bit_at-pow : (j k : ℕ) → bit_at j (2 ^ k) ≡ (if k == j then 1 else 0)
unfolding bit_at
bit_at-pow zero zero = refl
bit_at-pow zero (suc k) = ground (arith, pow-suc 2 k)
bit_at-pow (suc j) zero = ground (arith, bit_at-zero j)
bit_at-pow (suc j) (suc k) =
    let halved : 2 ^ suc k / 2 ≡ 2 ^ k = omega (arith, pow-suc 2 k) in
    rw halved (ground (arith, bit_at-pow j k))

-- `(x & (1 << k)) != 0`
unfoldable pub test_bit : ℕ → ℕ → Bool
test_bit x k = not (bit_and x (2 ^ k) == 0)

pub test_bit-eq-bit_at : (x k : ℕ) → test_bit x k ≡ (bit_at k x == 1)
unfolding test_bit
test_bit-eq-bit_at x k = elim (Bool-cases (bit_at k x == 1)) [
  | inl on ↦ ground (
    arith,
    bit_at-bit_and k x (2 ^ k),
    bit_at-pow k k,
    λ (e : bit_and x (2 ^ k) ≡ 0). ap (bit_at k) e,
    bit_at-zero k,
  )
  | inr off ↦ ground (
    arith,
    eq_of_bit_at (bit_and x (2 ^ k)) 0 (λ j.
        ground (arith, bit_at-bit_and j x (2 ^ k), bit_at-pow j k, bit_at-zero j, bit_at-lt k x)),
  )
]

module _ (k a b : ℕ) where
  pub test_bit-bit_or : test_bit (bit_or a b) k ≡ (test_bit a k || test_bit b k)
  test_bit-bit_or =
      simp test_bit-eq-bit_at (ground (arith, bit_at-bit_or k a b, bit_at-lt k a, bit_at-lt k b))

  pub test_bit-bit_and : test_bit (bit_and a b) k ≡ (test_bit a k && test_bit b k)
  test_bit-bit_and =
      simp test_bit-eq-bit_at (ground (arith, bit_at-bit_and k a b, bit_at-lt k a, bit_at-lt k b))

  pub test_bit-bit_xor : test_bit (bit_xor a b) k ≡ xor (test_bit a k) (test_bit b k)
  unfolding xor
  test_bit-bit_xor =
      simp test_bit-eq-bit_at (ground (arith, bit_at-bit_xor k a b, bit_at-lt k a, bit_at-lt k b))

pub test_bit-pow : (k j : ℕ) → test_bit (2 ^ j) k ≡ (j == k)
test_bit-pow k j = simp test_bit-eq-bit_at (ground (arith, bit_at-pow k j))

pub test_bit-zero : (k : ℕ) → test_bit 0 k ≡ false
test_bit-zero k = simp test_bit-eq-bit_at (ground (arith, bit_at-zero k))

-- A test that is run at each value under a bound, the greatest first.
unfoldable pub passes_under : (ℕ → Bool) → ℕ → Bool
passes_under test zero = true
passes_under test (suc bound) = if test bound then passes_under test bound else false

pub passes_at :
    (test : ℕ → Bool) (bound : ℕ)
    → passes_under test bound ≡ true
    → (x : ℕ) → x < bound
    → test x ≡ true
unfolding passes_under
passes_at test zero all x small = absurd (omega arith)
passes_at test (suc bound) all x small = elim (Bool-cases (x == bound)) [
  | inl last ↦ let same : x ≡ bound = (==_iff x bound).0 last in ground (arith, all, ap test same)
  | inr earlier ↦ passes_at test bound (ground (arith, all)) x (ground arith)
]

mask_table :
    passes_under (λ j. passes_under (λ k. beq (test_bit (255 - 2 ^ j) k) (not (j == k))) 8) 8 ≡ true
unfolding passes_under test_bit
mask_table = refl

beq→eq : (a b : Bool) → beq a b ≡ true → a ≡ b
beq→eq a b h = ground arith

-- `~(1 << j)`, cut to a byte.
pub test_bit_mask : (j k : ℕ) → j < 8 → k < 8 → test_bit (255 - 2 ^ j) k ≡ not (j == k)
test_bit_mask j k hj hk = beq→eq _ _ (passes_at _ 8 (passes_at _ 8 mask_table j hj) k hk)

complement_table :
    passes_under (λ x. passes_under (λ k. beq (test_bit (255 - x) k) (not (test_bit x k))) 8) 256
    ≡ true
unfolding passes_under test_bit
complement_table = refl

-- `~x`, cut to a byte.
pub test_bit_complement : (x k : ℕ) → x < 256 → k < 8 → test_bit (255 - x) k ≡ not (test_bit x k)
test_bit_complement x k hx hk =
    beq→eq _ _ (passes_at _ 8 (passes_at _ 256 complement_table x hx) k hk)

pub bit_or_comm : (a b : ℕ) → bit_or a b ≡ bit_or b a
bit_or_comm a b = eq_of_bit_at _ _ (λ k. omega (arith, bit_at-bit_or k a b, bit_at-bit_or k b a))

pub bit_and_comm : (a b : ℕ) → bit_and a b ≡ bit_and b a
bit_and_comm a b = eq_of_bit_at _ _ (λ k. omega (arith, bit_at-bit_and k a b, bit_at-bit_and k b a))

pub bit_xor_comm : (a b : ℕ) → bit_xor a b ≡ bit_xor b a
bit_xor_comm a b =
    eq_of_bit_at _ _ (λ k. ground (arith, bit_at-bit_xor k a b, bit_at-bit_xor k b a))

-- `x & 1` tells an even number from an odd one.
pub bit_and-one : (x : ℕ) → (bit_and x 1 == 0) ≡ (x % 2 == 0)
unfolding test_bit bit_at
bit_and-one x =
    let law : not (bit_and x 1 == 0) ≡ (x % 2 == 1) = test_bit-eq-bit_at x 0 in ground (arith, law)

bit_at-bit_or-even :
    (x b : ℕ) → b < 2 → (k : ℕ) → bit_at k (bit_or (x * 2) b) ≡ bit_at k (x * 2 + b)
unfolding bit_at
bit_at-bit_or-even x b h zero =
    let law : bit_or (x * 2) b % 2 ≡ max (x * 2 % 2) (b % 2) = bit_at-bit_or 0 (x * 2) b in
    omega arith
bit_at-bit_or-even x b h (suc k) =
    let left : x * 2 / 2 ≡ x = omega arith in
    let right : (x * 2 + b) / 2 ≡ x = omega arith in
    let none_left : b / 2 ≡ 0 = omega arith in
    let law : bit_at k (bit_or (x * 2) b / 2) ≡ max (bit_at k (x * 2 / 2)) (bit_at k (b / 2)) =
      bit_at-bit_or (suc k) (x * 2) b in
    law ∙ rw (left, right, none_left) (omega (arith, bit_at-zero k))

-- `x | b` for an even number and a single bit.
pub bit_or-even : (x b : ℕ) → b < 2 → bit_or (x * 2) b ≡ x * 2 + b
bit_or-even x b h = eq_of_bit_at _ _ (bit_at-bit_or-even x b h)

bit_at-shifted :
    (n x b : ℕ)
    → b < 2 ^ n
    → (k : ℕ) → max (bit_at k (x * 2 ^ n)) (bit_at k b) ≡ bit_at k (x * 2 ^ n + b)
unfolding bit_at
bit_at-shifted zero x b h k =
    let none_left : b ≡ 0 = omega arith in
    let same : x * 2 ^ 0 + 0 ≡ x * 2 ^ 0 = omega arith in
    rw (none_left, same, bit_at-zero k) (omega arith)
bit_at-shifted (suc n) x b h zero =
    let power : 2 ^ suc n ≡ 2 ^ n * 2 = pow-suc 2 n in
    let even : x * (2 ^ n * 2) ≡ x * 2 ^ n * 2 = grind arith in rw (power, even) (omega arith)
bit_at-shifted (suc n) x b h (suc k) =
    let power : 2 ^ suc n ≡ 2 ^ n * 2 = pow-suc 2 n in
    let even : x * (2 ^ n * 2) ≡ x * 2 ^ n * 2 = grind arith in
    let left : x * 2 ^ n * 2 / 2 ≡ x * 2 ^ n = omega arith in
    let right : (x * 2 ^ n * 2 + b) / 2 ≡ x * 2 ^ n + b / 2 = omega arith in
    rw (power, even, left, right) (bit_at-shifted n x (b / 2) (omega (arith, power)) k)

-- `x << n | b` for a `b` of `n` bits.
pub bit_or-shifted : (n x b : ℕ) → b < 2 ^ n → bit_or (x * 2 ^ n) b ≡ x * 2 ^ n + b
bit_or-shifted n x b h =
    eq_of_bit_at _ _ (λ k. bit_at-bit_or k (x * 2 ^ n) b ∙ bit_at-shifted n x b h k)
