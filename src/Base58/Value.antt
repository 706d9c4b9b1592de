-- ===== src/Base58/Value.antt =====
-- The numbers that big integers stand for.
use native.Mathlib.Nat.{pow-suc, mod-add-div', mod-lt, div-lt_iff_lt-mul, mul-le-mul_right}
pub use poseidon.Prelude.{AllBelow, AllBytes}
use poseidon.Prelude.Division.{div_mod_unique}
use poseidon.Prelude.{
  List-cases, ℕ, zero, suc, ◌+◌, ◌*◌, ◌/◌, ◌%◌, ◌^◌, ◌≤◌, ◌<◌, ◌≡◌, refl, arith, ap, List, [], ◌∷◌,
  inl, inr,
}
use poseidon.Base58.{push_carry, multiply, add, divide, trim, divmod}

-- The number with these digits, the lowest first.
abbrev pub numeral : ℕ → List ℕ → ℕ
numeral base [] = 0
numeral base (b ∷ rest) = b + base * numeral base rest

abbrev pub value : List ℕ → ℕ
value result = numeral 256 result

-- The number that big-endian digits continue.
abbrev pub horner : ℕ → ℕ → List ℕ → ℕ
horner base acc [] = acc
horner base acc (d ∷ digits) = horner base (acc * base + d) digits

-- The highest digit is not 0.
abbrev pub Trimmed : ℕ → List ℕ → Type 0
Trimmed base [] = zero ≡ zero
Trimmed base (b ∷ rest) = (0 < numeral base (b ∷ rest)) × Trimmed base rest

pub value-push_carry : (n carry : ℕ) → carry < 256 ^ n → value (push_carry n carry) ≡ carry
unfolding push_carry
value-push_carry zero carry h = omega arith
value-push_carry (suc n) carry h =
    ground (arith, value-push_carry n (carry / 256) (omega (arith, pow-suc 256 n)))

-- On a big integer made of bytes, multiplication by a factor of at most 256, from a carry below
-- 65536, gives the product plus the carry.
pub value-multiply :
    (result : List ℕ) (factor carry : ℕ)
    → AllBytes result
    → factor ≤ 256
    → carry < 65536
    → value (multiply result factor carry) ≡ value result * factor + carry
unfolding multiply
value-multiply [] factor carry h k l =
    let kept : value (push_carry 4 carry) ≡ carry = value-push_carry 4 carry (omega arith) in
    omega (arith, kept)
value-multiply (b ∷ result) factor carry (h, hs) k l =
    let product : b * factor ≤ 255 * 256 = grind arith in
    let val : ℕ = b * factor + carry in
    let small : val % 2 ^ 32 ≡ val = omega arith in
    let rest : value (multiply result factor (val / 256)) ≡ value result * factor + val / 256 =
      value-multiply result factor (val / 256) hs k (omega arith) in
    let split : (b + 256 * value result) * factor ≡ b * factor + 256 * (value result * factor) =
      grind arith in
    rw small (omega (arith, rest, split))

-- Addition of a value below 65536.
pub value-add :
    (result : List ℕ) (carry : ℕ)
    → AllBytes result
    → carry < 65536
    → value (add result carry) ≡ value result + carry
unfolding add
value-add [] carry h l =
    let kept : value (push_carry 4 carry) ≡ carry = value-push_carry 4 carry (omega arith) in
    omega (arith, kept)
value-add (b ∷ result) carry (h, hs) l =
    let small : (b + carry) % 2 ^ 32 ≡ b + carry = omega arith in
    rw small (ground (arith, value-add result ((b + carry) / 256) hs (omega arith)))

pub value-trim : (result : List ℕ) → value (trim result) ≡ value result
unfolding trim
value-trim [] = refl
value-trim (b ∷ result) = elim (List-cases (trim result)) [
  | inl e ↦ ground (arith, e, value-trim result, ap {B = ℕ} value e)
  | inr (c, rest, e) ↦ rw e (omega (arith, value-trim result, ap {B = ℕ} value e))
]

-- Division by a divisor that fits in nine bits.
module _ (divisor : ℕ) (positive : 0 < divisor) (small : divisor ≤ 256) where
  divide_step : (r b : ℕ) → r < divisor → b < 256 → (r * 256 + b) / divisor < 256
  divide_step r b h k =
      (div-lt_iff_lt-mul positive).1
        (let room : suc r * 256 ≤ divisor * 256 = mul-le-mul_right 256 (omega arith) in omega arith)

  pub value-divide :
      (result : List ℕ)
      → AllBytes result
      → (value (divide result divisor).0 * divisor + (divide result divisor).1 ≡ value result)
        × ((divide result divisor).1 < divisor)
  unfolding divide
  value-divide [] h = (omega arith, positive)
  value-divide (b ∷ result) (h, hs) =
      let (known, less) = value-divide result hs in
      let r : ℕ = (divide result divisor).1 in
      let q : ℕ = value (divide result divisor).0 in
      let whole : (r * 256 + b) % 2 ^ 32 ≡ r * 256 + b = omega (arith, less, small) in
      let byte : (r * 256 + b) / divisor % 256 ≡ (r * 256 + b) / divisor =
        omega (arith, divide_step r b less h) in
      let parts : ((r * 256 + b) / divisor + 256 * q) * divisor
          ≡ (r * 256 + b) / divisor * divisor + 256 * (q * divisor) =
        grind arith in
      rw (whole, byte)
        (
          omega (arith, known, parts, mod-add-div' (r * 256 + b) divisor),
          mod-lt (r * 256 + b) positive,
        )

  -- On a big integer made of bytes, division by a positive divisor of at most 256 leaves the
  -- quotient and returns the remainder.
  pub value-divmod :
      (result : List ℕ)
      → AllBytes result
      → (value (divmod result divisor).0 ≡ value result / divisor)
        × ((divmod result divisor).1 ≡ value result % divisor)
  unfolding divmod
  value-divmod result h =
      let (known, less) = value-divide result h in
      let (quotient, remainder) =
        div_mod_unique (value result) divisor (value (divide result divisor).0)
          (divide result divisor).1 less (omega (arith, known)) in
      (
        omega (arith, quotient, value-trim (divide result divisor).0),
        omega (arith, remainder, less, small),
      )
