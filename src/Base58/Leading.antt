-- ===== src/Base58/Leading.antt =====
-- Digits at the front and at the top of a number, and how many digits a number has.
use native.Mathlib.Nat.{pow-suc, pow-zero, lt_of_mul-lt-mul_left, mul-pos}
use poseidon.Prelude.{
  ℕ, zero, suc, ◌+◌, ◌*◌, ◌^◌, ◌≤◌, ◌<◌, ◌≡◌, refl, sym, ap, ◌∙◌, inl, inr, List, [], ◌∷◌, ◌++◌,
  arith, ◌==◌, ==_iff, Bool-cases, length, drop, reverse, replicate, length-reverse,
}
use poseidon.Base58.{leading}
use poseidon.Base58.Value.{numeral, value, AllBelow, Trimmed, horner}
use poseidon.Base58.Digits.{IsBig}

-- The first digits that are `c`, and the rest.
pub leading_split :
    (c : ℕ) (xs : List ℕ) → replicate (leading c xs) c ++ drop (leading c xs) xs ≡ xs
unfolding leading
leading_split c [] = refl
leading_split c (x ∷ xs) = elim (Bool-cases (x == c)) [
  | inl e ↦ rw e (
      ap {B = List ℕ} (◌∷◌ c) (leading_split c xs)
      ∙ ap {B = List ℕ} (λ y. y ∷ xs) (sym ((==_iff x c).0 e)))
  | inr e ↦ rw e refl
]

pub leading-drop : (c : ℕ) (xs : List ℕ) → leading c (drop (leading c xs) xs) ≡ 0
unfolding leading
leading-drop c [] = refl
leading-drop c (x ∷ xs) = elim (Bool-cases (x == c)) [
  | inl e ↦ rw e (leading-drop c xs)
  | inr e ↦ rw (e, e) refl
]

pub leading-replicate : (n c : ℕ) (xs : List ℕ) → leading c (replicate n c ++ xs) ≡ n + leading c xs
unfolding leading
leading-replicate zero c xs = omega arith
leading-replicate (suc n) c xs = ground (arith, leading-replicate n c xs)

pub drop-replicate : (n c : ℕ) (xs : List ℕ) → drop n (replicate n c ++ xs) ≡ xs
drop-replicate zero c xs = refl
drop-replicate (suc n) c xs = drop-replicate n c xs

leading-append :
    (c : ℕ) (xs ys : List ℕ) → 0 < length xs → leading c xs ≡ 0 → leading c (xs ++ ys) ≡ 0
unfolding leading
leading-append c [] ys l h = absurd (omega arith)
leading-append c (x ∷ xs) ys l h = ground (arith, h)

module _ (base : ℕ) where
  AllBelow-append :
      (xs ys : List ℕ) → AllBelow base xs → AllBelow base ys → AllBelow base (xs ++ ys)
  AllBelow-append [] ys h k = k
  AllBelow-append (x ∷ xs) ys (h, hs) k = (h, AllBelow-append xs ys hs k)

  pub AllBelow-reverse : (xs : List ℕ) → AllBelow base xs → AllBelow base (reverse xs)
  AllBelow-reverse [] h = refl
  AllBelow-reverse (x ∷ xs) (h, hs) =
      AllBelow-append (reverse xs) (x ∷ []) (AllBelow-reverse xs hs) (h, refl)

  pub AllBelow-drop : (n : ℕ) (xs : List ℕ) → AllBelow base xs → AllBelow base (drop n xs)
  AllBelow-drop zero xs h = h
  AllBelow-drop (suc n) [] h = refl
  AllBelow-drop (suc n) (x ∷ xs) (h, hs) = AllBelow-drop n xs hs

  pub horner-zeros : (n : ℕ) (xs : List ℕ) → horner base 0 (replicate n 0 ++ xs) ≡ horner base 0 xs
  horner-zeros zero xs = refl
  horner-zeros (suc n) xs =
      ap (λ (x : ℕ). horner base x (replicate n 0 ++ xs)) (omega arith) ∙ horner-zeros n xs

module _ (base : ℕ) (positive : 0 < base) where
  Trimmed-snoc : (xs : List ℕ) (b : ℕ) → 0 < b → Trimmed base (xs ++ (b ∷ []))
  Trimmed-snoc [] b h = (omega arith, refl)
  Trimmed-snoc (x ∷ []) b h = (omega (arith, mul-pos positive h), (omega arith, refl))
  Trimmed-snoc (x ∷ y ∷ xs) b h =
      let (some_left, rest) = Trimmed-snoc (y ∷ xs) b h in
      (omega (arith, mul-pos positive some_left), (some_left, rest))

  pub reverse-Trimmed : (xs : List ℕ) → leading 0 xs ≡ 0 → Trimmed base (reverse xs)
  unfolding leading
  reverse-Trimmed [] h = refl
  reverse-Trimmed (x ∷ xs) h = Trimmed-snoc (reverse xs) x (ground (arith, h))

  pub leading-reverse : (xs : List ℕ) → Trimmed base xs → leading 0 (reverse xs) ≡ 0
  unfolding leading
  leading-reverse [] h = refl
  leading-reverse (x ∷ []) (h, hs) = ground (arith, h)
  leading-reverse (x ∷ y ∷ xs) (h, hs) =
      leading-append 0 (reverse (y ∷ xs)) (x ∷ []) (omega (arith, length-reverse (y ∷ xs)))
        (leading-reverse (y ∷ xs) hs)

  -- A number below a power has no more digits than the exponent says.
  pub length_of_lt :
      (m : ℕ) (xs : List ℕ) → Trimmed base xs → numeral base xs < base ^ m → length xs ≤ m
  length_of_lt m [] h l = omega arith
  length_of_lt zero (x ∷ xs) (h, hs) l = absurd (omega (arith, pow-zero base))
  length_of_lt (suc m) (x ∷ xs) (h, hs) l =
      let shift : base ^ suc m ≡ base * base ^ m = pow-suc base m ∙ grind arith in
      let less : numeral base xs < base ^ m =
        lt_of_mul-lt-mul_left base (omega (arith, l, shift)) in
      omega (arith, length_of_lt m xs hs less)

-- Trimmed byte strings with one value are equal.
pub numeral_inj : (xs ys : List ℕ) → IsBig xs → IsBig ys → value xs ≡ value ys → xs ≡ ys
numeral_inj [] [] h k e = refl
numeral_inj [] (y ∷ ys) h (k, (t, ts)) e = absurd (omega arith)
numeral_inj (x ∷ xs) [] (h, (t, ts)) k e = absurd (omega arith)
numeral_inj (x ∷ xs) (y ∷ ys) ((h, hs), (t, ts)) ((k, ks), (u, us)) e =
    let first : x ≡ y = omega arith in
    let rest : xs ≡ ys = numeral_inj xs ys (hs, ts) (ks, us) (omega arith) in
    ap {B = List ℕ} (λ z. z ∷ xs) first ∙ ap {B = List ℕ} (◌∷◌ y) rest

pub power_room : (k : ℕ) → 256 ^ k ≤ 58 ^ (k + k)
power_room zero = omega arith
power_room (suc k) =
    let next : 58 ^ (suc k + suc k) ≡ 58 ^ (k + k) * 58 * 58 =
      ap (λ (m : ℕ). 58 ^ m) (omega arith)
      ∙ pow-suc 58 (suc (k + k))
      ∙ ap (λ (m : ℕ). m * 58) (pow-suc 58 (k + k)) in
    omega (arith, power_room k, next, pow-suc 256 k)
