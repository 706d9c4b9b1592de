-- ===== src/Bitset/Compare.antt =====
-- The order of bit sets that `bitset_compare` decides.
use poseidon.Prelude.{
  ℕ, ◌≡◌, ◌↔◌, refl, Ordering, List, [], ◌∷◌, true, arith, length, ◌==◌, Bool-cases, inl, inr,
}
use poseidon.Bitset.{Bitset, size, tails, sign, compare, same}

-- The tails are equal only where no byte differs and the tails at the start are equal.
tails-eq :
    (xs ys : List ℕ) (m n : ℕ)
    → (m ≡ n → length xs ≡ length ys)
    → sign (tails xs ys m n) ≡ Ordering.eq
    → xs ≡ ys
unfolding tails
tails-eq (x ∷ xs) (y ∷ ys) m n e h = elim (Bool-cases (x == y)) [
  | inl p ↦ ground (arith, tails-eq xs ys m n (λ q. omega (arith, e q)))
  | inr p ↦ absurd (ground arith)
]
tails-eq [] [] m n e h = refl
tails-eq [] (y ∷ ys) m n e h = absurd (ground (arith, e))
tails-eq (x ∷ xs) [] m n e h = absurd (ground (arith, e))

tails_self : (xs : List ℕ) (m : ℕ) → sign (tails xs xs m m) ≡ Ordering.eq
unfolding tails
tails_self [] m = ground arith
tails_self (x ∷ xs) m = ground (arith, tails_self xs m)

abbrev pub flip : Ordering → Ordering
flip Ordering.lt = Ordering.gt
flip Ordering.eq = Ordering.eq
flip Ordering.gt = Ordering.lt

sign-tails-flip :
    (xs ys : List ℕ) (m n : ℕ) → sign (tails ys xs n m) ≡ flip (sign (tails xs ys m n))
unfolding tails
sign-tails-flip (x ∷ xs) (y ∷ ys) m n = ground (arith, sign-tails-flip xs ys m n)
sign-tails-flip [] [] m n = ground arith
sign-tails-flip [] (y ∷ ys) m n = ground arith
sign-tails-flip (x ∷ xs) [] m n = ground arith

pub compare-flip : (a b : Bitset) → compare b a ≡ flip (compare a b)
unfolding compare
compare-flip a b = sign-tails-flip a.bytes b.bytes (size a) (size b)

-- Two bit sets compare as equal exactly where they have the same bytes.
pub same_iff : (a b : Bitset) → (same a b ≡ true) ↔ (a.bytes ≡ b.bytes)
unfolding same
same_iff a b = (
  λ h. tails-eq a.bytes b.bytes (size a) (size b) (λ e. e) (ground arith),
  λ e. rw e (ground (arith, tails_self b.bytes (size b))),
)
