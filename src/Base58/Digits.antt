-- ===== src/Base58/Digits.antt =====
-- The invariants of the big integers, and what loading and extracting digits make of their values.
use mathlib.Core.Path.{subst}
use native.Mathlib.Nat.{
  pow-zero, pow-succ', mod-add-div, pow-suc, mul-pos, mod-lt, div-lt_iff_lt-mul, mul-le-mul_left,
}
use poseidon.Prelude.{
  ℕ, zero, suc, ◌+◌, ◌*◌, ◌/◌, ◌%◌, ◌^◌, ◌≤◌, ◌<◌, ◌≡◌, refl, ap, ◌∙◌, inl, inr, some, List, [],
  ◌∷◌, ◌++◌, arith, ltb, ◌==◌, ltb→lt, List-cases, if_intro, length, reverse,
}
use poseidon.Base58.{push_carry, multiply, add, divide, trim, divmod, load, extract}
use poseidon.Base58.Value.{
  numeral, value, AllBelow, AllBytes, Trimmed, horner, value-push_carry, value-multiply, value-add,
  value-divmod,
}

push_carry-bytes : (n carry : ℕ) → AllBytes (push_carry n carry)
unfolding push_carry
push_carry-bytes zero carry = refl
push_carry-bytes (suc n) carry =
    if_intro AllBytes (ltb 0 carry) (carry % 256 ∷ push_carry n (carry / 256)) []
      (λ _. (omega arith, push_carry-bytes n (carry / 256))) (λ _. refl)

multiply-bytes : (result : List ℕ) (factor carry : ℕ) → AllBytes (multiply result factor carry)
unfolding multiply
multiply-bytes [] factor carry = push_carry-bytes 4 carry
multiply-bytes (b ∷ result) factor carry = (omega arith, multiply-bytes result factor _)

add-bytes : (result : List ℕ) (carry : ℕ) → AllBytes result → AllBytes (add result carry)
unfolding add
add-bytes [] carry h = push_carry-bytes 4 carry
add-bytes (b ∷ result) carry (h, hs) =
    if_intro AllBytes (ltb 0 carry) _ (b ∷ result) (λ _. (omega arith, add-bytes result _ hs))
      (λ _. (h, hs))

divide-bytes : (result : List ℕ) (divisor : ℕ) → AllBytes (divide result divisor).0
unfolding divide
divide-bytes [] divisor = refl
divide-bytes (b ∷ result) divisor = (omega arith, divide-bytes result divisor)

trim-bytes : (result : List ℕ) → AllBytes result → AllBytes (trim result)
unfolding trim
trim-bytes [] h = refl
trim-bytes (b ∷ result) (h, hs) = elim (List-cases (trim result)) [
  | inl e ↦ rw e (if_intro AllBytes (b == 0) [] (b ∷ []) (λ _. refl) (λ _. (h, refl)))
  | inr (c, rest, e) ↦ rw e (h, subst AllBytes e (trim-bytes result hs))
]

push_carry-Trimmed : (n carry : ℕ) → carry < 256 ^ n → Trimmed 256 (push_carry n carry)
unfolding push_carry
push_carry-Trimmed zero carry h = refl
push_carry-Trimmed (suc n) carry h =
    let next : carry / 256 < 256 ^ n = omega (arith, pow-suc 256 n) in
    if_intro (Trimmed 256) (ltb 0 carry) (carry % 256 ∷ push_carry n (carry / 256)) []
      (λ e. (
        omega (arith, value-push_carry n (carry / 256) next, ltb→lt 0 carry e),
        push_carry-Trimmed n (carry / 256) next,
      ))
      (λ _. refl)

multiply-Trimmed :
    (result : List ℕ) (factor carry : ℕ)
    → AllBytes result
    → 0 < factor
    → factor ≤ 256
    → carry < 65536
    → Trimmed 256 result
    → Trimmed 256 (multiply result factor carry)
unfolding multiply
multiply-Trimmed [] factor carry h p k l t = push_carry-Trimmed 4 carry (omega arith)
multiply-Trimmed (b ∷ result) factor carry (h, hs) p k l (t, ts) =
    let product : b * factor ≤ 255 * 256 = grind arith in
    let whole : (b * factor + carry) % 2 ^ 32 ≡ b * factor + carry = omega arith in
    let known : value (multiply (b ∷ result) factor carry) ≡ value (b ∷ result) * factor + carry =
      value-multiply (b ∷ result) factor carry (h, hs) k l in
    let positive : 0 < value (b ∷ result) * factor = mul-pos t p in
    (
      omega (arith, known, positive),
      multiply-Trimmed result factor _ hs p k (omega (arith, whole)) ts,
    )

add-Trimmed :
    (result : List ℕ) (carry : ℕ)
    → AllBytes result
    → carry < 65536
    → Trimmed 256 result
    → Trimmed 256 (add result carry)
unfolding add
add-Trimmed [] carry h l t = push_carry-Trimmed 4 carry (omega arith)
add-Trimmed (b ∷ result) carry (h, hs) l (t, ts) =
    if_intro (Trimmed 256) (ltb 0 carry) _ (b ∷ result)
      (λ e.
        let whole : (b + carry) % 2 ^ 32 ≡ b + carry = omega arith in
        let next : value (add result ((b + carry) / 256)) ≡ value result + (b + carry) / 256 =
          value-add result _ hs (omega arith) in
        rw whole (omega (arith, next, ltb→lt 0 carry e), add-Trimmed result _ hs (omega arith) ts))
      (λ _. (t, ts))

trim-Trimmed : (result : List ℕ) → Trimmed 256 (trim result)
unfolding trim
trim-Trimmed [] = refl
trim-Trimmed (b ∷ result) = elim (List-cases (trim result)) [
  | inl e ↦
      rw e (if_intro (Trimmed 256) (b == 0) [] (b ∷ []) (λ _. refl) (λ f. (ground arith, refl)))
  | inr (c, rest, e) ↦
      let kept : Trimmed 256 (c ∷ rest) = subst (Trimmed 256) e (trim-Trimmed result) in
      rw e (omega (arith, kept.0), kept)
]

-- A big integer as the loops keep it: bytes, the highest not 0.
abbrev pub IsBig : List ℕ → Type 0
IsBig bigint = AllBytes bigint × Trimmed 256 bigint

quotient-IsBig : (result : List ℕ) (divisor : ℕ) → IsBig (divmod result divisor).0
unfolding divmod
quotient-IsBig result divisor = (
  trim-bytes (divide result divisor).0 (divide-bytes result divisor),
  trim-Trimmed (divide result divisor).0,
)

module _ (base : ℕ) (positive : 0 < base) (small : base ≤ 256) where
  -- For a positive base of at most 256 and a big integer of bytes whose highest is not 0 and whose
  -- value is below `base ^ n`, the loop that divides until nothing is left ends within `n` rounds,
  -- and gives the digits of the number in that base, the highest not 0.
  pub extract_lem :
      (n : ℕ) (bigint : List ℕ)
      → IsBig bigint
      → value bigint < base ^ n
      → (digits : List ℕ) × (extract n base bigint ≡ some digits)
        × (numeral base digits ≡ value bigint)
        × AllBelow base digits
        × Trimmed base digits
        × (length digits ≤ n)
  unfolding extract
  extract_lem zero [] h l = ([], refl, refl, refl, refl, omega arith)
  extract_lem zero (b ∷ bigint) (h, (t, ts)) l = absurd (omega (arith, pow-zero base))
  extract_lem (suc n) [] h l = ([], refl, refl, refl, refl, omega arith)
  extract_lem (suc n) (b ∷ bigint) (h, (t, ts)) l =
      let (q, r) = value-divmod base positive small (b ∷ bigint) h in
      let v : ℕ = value (b ∷ bigint) in
      let less : v / base < base ^ n =
        (div-lt_iff_lt-mul positive).1 (omega (arith, l, pow-suc base n)) in
      let (digits, done, known, below, top, short) =
        extract_lem n (divmod (b ∷ bigint) base).0 (quotient-IsBig (b ∷ bigint) base)
          (omega (arith, q, less)) in
      let whole : (divmod (b ∷ bigint) base).1 + base * numeral base digits ≡ v =
        omega (arith, q, r, known, mod-add-div v base, ap (λ (x : ℕ). base * x) (known ∙ q)) in
      (
        (divmod (b ∷ bigint) base).1 ∷ digits,
        rw done refl,
        whole,
        (omega (arith, r, mod-lt v positive), below),
        (omega (arith, whole, t), top),
        omega (arith, short),
      )

  pub load_lem :
      (digits : List ℕ) (bigint : List ℕ)
      → AllBelow base digits
      → IsBig bigint
      → (value (load base digits bigint) ≡ horner base (value bigint) digits)
        × IsBig (load base digits bigint)
  unfolding load
  load_lem [] bigint h k = (refl, k)
  load_lem (d ∷ digits) bigint (h, hs) (k, t) =
      let product : List ℕ = multiply bigint base 0 in
      let known : value product ≡ value bigint * base + 0 =
        value-multiply bigint base 0 k small (omega arith) in
      let bytes : AllBytes product = multiply-bytes bigint base 0 in
      let top : Trimmed 256 product =
        multiply-Trimmed bigint base 0 k positive small (omega arith) t in
      let sum : value (add product d) ≡ value bigint * base + d =
        value-add product d bytes (omega arith) ∙ ap (λ (x : ℕ). x + d) (omega (arith, known)) in
      let (rest, kept) =
        load_lem digits (add product d) hs
          (add-bytes product d bytes, add-Trimmed product d bytes (omega arith) top) in
      (rest ∙ ap (λ (x : ℕ). horner base x digits) sum, kept)

  horner-append :
      (acc : ℕ) (xs ys : List ℕ) → horner base acc (xs ++ ys) ≡ horner base (horner base acc xs) ys
  horner-append acc [] ys = refl
  horner-append acc (x ∷ xs) ys = horner-append (acc * base + x) xs ys

  pub horner-reverse : (digits : List ℕ) → horner base 0 (reverse digits) ≡ numeral base digits
  horner-reverse [] = refl
  horner-reverse (d ∷ digits) =
      horner-append 0 (reverse digits) (d ∷ [])
      ∙ ap (λ (x : ℕ). x * base + d) (horner-reverse digits)
      ∙ grind arith

  pub numeral-lt :
      (digits : List ℕ) → AllBelow base digits → numeral base digits < base ^ length digits
  numeral-lt [] h = omega (arith, pow-zero base)
  numeral-lt (d ∷ digits) (h, hs) =
      let less : base * suc (numeral base digits) ≤ base * base ^ length digits =
        mul-le-mul_left base (numeral-lt digits hs) in
      let parts : base * suc (numeral base digits) ≡ base + base * numeral base digits =
        grind arith in
      omega (arith, less, parts, h, pow-succ' base (length digits))
