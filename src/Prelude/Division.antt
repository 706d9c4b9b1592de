-- ===== src/Prelude/Division.antt =====
-- Quotients and remainders by a variable, and by its double.
use native.Mathlib.Nat.{div-eq_of_lt-le, mod-add-div', mod-lt}
use poseidon.Prelude.{
  ◌⊎◌, inl, inr, ◌==◌, Bool-cases, ℕ, zero, suc, ◌+◌, ◌*◌, ◌/◌, ◌%◌, ◌<◌, ◌≡◌, arith, ap,
}

-- The quotient and the remainder are determined by the equation.
pub div_mod_unique : (n d q r : ℕ) → r < d → n ≡ q * d + r → (n / d ≡ q) × (n % d ≡ r)
div_mod_unique n d q r h e =
    let quotient : n / d ≡ q = div-eq_of_lt-le d {m = n} (omega arith) (grind arith) in
    (quotient, omega (arith, mod-add-div' n d, ap (λ (t : ℕ). t * d) quotient))

bit-mul-lt : (r d b : ℕ) → r < d → b < 2 → r + d * b < d * 2
bit-mul-lt r d zero h k = omega arith
bit-mul-lt r d (suc zero) h k = omega arith
bit-mul-lt r d (suc (suc b)) h k = absurd (omega arith)

-- Halving the divisor.
pub div_mod_double :
    (n d : ℕ) → 0 < d → (n / (d * 2) ≡ n / d / 2) × (n % (d * 2) ≡ n % d + d * (n / d % 2))
div_mod_double n d h =
    div_mod_unique n (d * 2) (n / d / 2) (n % d + d * (n / d % 2))
      (bit-mul-lt (n % d) d (n / d % 2) (mod-lt n h) (omega arith))
      (let halves : n / d ≡ n / d / 2 * 2 + n / d % 2 = omega arith in
        omega (arith, mod-add-div' n d, ap (λ (t : ℕ). t * d) halves))

-- Halving the number.
pub half_mod_double : (n d : ℕ) → 0 < d → (n % (d * 2) % 2 ≡ n % 2) × (n % (d * 2) / 2 ≡ n / 2 % d)
half_mod_double n d h =
    let both : (n / (d * 2) ≡ n / 2 / d) × (n % (d * 2) ≡ n / 2 % d * 2 + n % 2) =
      div_mod_unique n (d * 2) (n / 2 / d) (n / 2 % d * 2 + n % 2) (omega (arith, mod-lt (n / 2) h))
        (omega (arith, mod-add-div' (n / 2) d)) in
    (omega (arith, both.1), omega (arith, both.1))

pub parity : (n : ℕ) → (n % 2 ≡ 0) ⊎ (n % 2 ≡ 1)
parity n = elim (Bool-cases (n % 2 == 0)) [
  | inl e ↦ inl (ground arith)
  | inr e ↦ inr (ground arith)
]
