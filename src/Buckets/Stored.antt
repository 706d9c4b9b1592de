-- ===== src/Buckets/Stored.antt =====
-- Fingerprints as the low bits of a number: which entries of a bucket still stand for it.
use Prim.Native.Nat.{bit_and, bit_or}
use native.Mathlib.Nat.{pow-suc, one-le-pow}
use poseidon.Prelude.{
  ℕ, zero, suc, ◌+◌, ◌*◌, ◌/◌, ◌%◌, ◌^◌, ◌≤◌, ◌<◌, ◌≡◌, refl, [], ◌∷◌, Bool, true, false, ◌&&◌,
  ◌||◌, arith, ◌==◌, ==_iff, if_intro, ap, ◌∙◌, Bool-cases, inl, inr,
}
use poseidon.Prelude.Division.{half_mod_double}
use poseidon.Prelude.Bits.{bit_and-one, bit_or-even}
use poseidon.Buckets.{Bucket, is_empty, contains, insert_new, split, push_all, append_bit, absorb}

-- The lowest `p` binary digits of two numbers are the same.
unfoldable pub agree_low : ℕ → ℕ → ℕ → Bool
agree_low zero x y = true
agree_low (suc p) x y = x % 2 == y % 2 && agree_low p (x / 2) (y / 2)

-- Some entry agrees with `v` on its lowest `p` digits.
unfoldable pub stored : ℕ → Bucket → ℕ → Bool
stored p [] v = false
stored p (fp ∷ rest) v = agree_low p fp v || stored p rest v

agree_low_refl : (p x : ℕ) → agree_low p x x ≡ true
unfolding agree_low
agree_low_refl zero x = refl
agree_low_refl (suc p) x = ground (arith, agree_low_refl p (x / 2))

agree_low_trans :
    (p x y z : ℕ) → agree_low p x y ≡ true → agree_low p y z ≡ true → agree_low p x z ≡ true
unfolding agree_low
agree_low_trans zero x y z h k = refl
agree_low_trans (suc p) x y z h k = ground (arith, agree_low_trans p (x / 2) (y / 2) (z / 2))

agree_low-mod : (p q x : ℕ) → p ≤ q → agree_low p (x % 2 ^ q) x ≡ true
unfolding agree_low
agree_low-mod zero q x h = refl
agree_low-mod (suc p) zero x h = absurd (omega arith)
agree_low-mod (suc p) (suc q) x h =
    let e : 2 ^ suc q ≡ 2 ^ q * 2 = pow-suc 2 q in
    let halves = half_mod_double x (2 ^ q) (one-le-pow q 2 (omega arith)) in
    rw (e, halves.0, halves.1) (ground (arith, agree_low-mod p q (x / 2)))

-- The fingerprint that an insertion stores agrees with the number that it is cut from.
pub agree_low-fingerprint : (p q x : ℕ) → p ≤ q → p ≤ 32 → agree_low p (x % 2 ^ q % 2 ^ 32) x ≡ true
agree_low-fingerprint p q x h k =
    agree_low_trans p _ _ _ (agree_low-mod p 32 (x % 2 ^ q) k) (agree_low-mod p q x h)

pub is_empty_of_stored : (p : ℕ) (b : Bucket) (v : ℕ) → stored p b v ≡ true → is_empty b ≡ false
unfolding stored
is_empty_of_stored p [] v h = ground arith
is_empty_of_stored p (fp ∷ rest) v h = refl

stored_of_contains :
    (p : ℕ) (b : Bucket) (fp v : ℕ)
    → contains b fp ≡ true
    → agree_low p fp v ≡ true
    → stored p b v ≡ true
unfolding stored contains
stored_of_contains p [] fp v h a = ground arith
stored_of_contains p (x ∷ rest) fp v h a = elim (Bool-cases (x == fp)) [
  | inl e ↦ rw ((==_iff x fp).0 e) (ground arith)
  | inr e ↦ ground (arith, stored_of_contains p rest fp v)
]

-- An insertion keeps what a bucket stands for, and adds its own fingerprint.
pub stored-insert_new_mono :
    (p : ℕ) (b : Bucket) (fp v : ℕ) → stored p b v ≡ true → stored p (insert_new b fp) v ≡ true
unfolding stored insert_new
stored-insert_new_mono p b fp v h = ground arith

pub stored-insert_new_self :
    (p : ℕ) (b : Bucket) (fp v : ℕ) → agree_low p fp v ≡ true → stored p (insert_new b fp) v ≡ true
unfolding stored insert_new
stored-insert_new_self p b fp v h = ground (arith, stored_of_contains p b fp v)

stored-split_stay :
    (p : ℕ) (b stay move : Bucket) (v : ℕ)
    → stored p stay v ≡ true
    → stored p (split b stay move).0 v ≡ true
unfolding stored split
stored-split_stay p [] stay move v h = h
stored-split_stay p (fp ∷ rest) stay move v h = stored-split_stay p rest _ _ v (
    if_intro (λ (b : Bucket). stored p b v ≡ true) (bit_and fp 1 == 0) _ _ (λ _. ground (arith, h))
      (λ _. h))

stored-split_move :
    (p : ℕ) (b stay move : Bucket) (v : ℕ)
    → stored p move v ≡ true
    → stored p (split b stay move).1 v ≡ true
unfolding stored split
stored-split_move p [] stay move v h = h
stored-split_move p (fp ∷ rest) stay move v h = stored-split_move p rest _ _ v (
    if_intro (λ (b : Bucket). stored p b v ≡ true) (bit_and fp 1 == 0) _ _ (λ _. h)
      (λ _. ground (arith, h)))

-- Splitting a bucket uses up one digit: even numbers are found in the half that stays, odd numbers
-- in the half that moves.
pub stored-split_even :
    (p : ℕ) (b stay move : Bucket) (v : ℕ)
    → v % 2 ≡ 0
    → stored (suc p) b v ≡ true
    → stored p (split b stay move).0 (v / 2) ≡ true
unfolding stored split agree_low
stored-split_even p [] stay move v e h = absurd (ground arith)
stored-split_even p (fp ∷ rest) stay move v e h = elim (Bool-cases (stored (suc p) rest v)) [
  | inl later ↦ stored-split_even p rest _ _ v e later
  | inr here ↦ stored-split_stay p rest _ _ (v / 2) (
      if_intro (λ (b : Bucket). stored p b (v / 2) ≡ true) (bit_and fp 1 == 0) _ _
        (λ _. ground (arith, h)) (λ odd. absurd (ground (arith, h, bit_and-one fp))))
]

pub stored-split_odd :
    (p : ℕ) (b stay move : Bucket) (v : ℕ)
    → v % 2 ≡ 1
    → stored (suc p) b v ≡ true
    → stored p (split b stay move).1 (v / 2) ≡ true
unfolding stored split agree_low
stored-split_odd p [] stay move v e h = absurd (ground arith)
stored-split_odd p (fp ∷ rest) stay move v e h = elim (Bool-cases (stored (suc p) rest v)) [
  | inl later ↦ stored-split_odd p rest _ _ v e later
  | inr here ↦ stored-split_move p rest _ _ (v / 2) (
      if_intro (λ (b : Bucket). stored p b (v / 2) ≡ true) (bit_and fp 1 == 0) _ _
        (λ even. absurd (ground (arith, h, bit_and-one fp))) (λ _. ground (arith, h)))
]

-- Joining two buckets gives the digit back.
pub stored-push_all_mono :
    (p b : ℕ) (xs merged : Bucket) (v : ℕ)
    → stored p merged v ≡ true
    → stored p (push_all b xs merged) v ≡ true
unfolding stored push_all
stored-push_all_mono p b [] merged v h = h
stored-push_all_mono p b (fp ∷ rest) merged v h =
    stored-push_all_mono p b rest (append_bit b fp ∷ merged) v (ground (arith, h))

agree_low-append_bit :
    (p b fp v : ℕ)
    → p < 32
    → b < 2
    → v % 2 ≡ b
    → agree_low p fp (v / 2) ≡ true
    → agree_low (suc p) (append_bit b fp) v ≡ true
unfolding agree_low
agree_low-append_bit p b fp v small bit e h =
    let wide : fp * 2 % 2 ^ 32 ≡ fp % 2 ^ 31 * 2 = omega arith in
    let sum : append_bit b fp ≡ fp % 2 ^ 31 * 2 + b =
      ap (λ (x : ℕ). bit_or x b) wide ∙ bit_or-even (fp % 2 ^ 31) b bit in
    let upper : (fp % 2 ^ 31 * 2 + b) / 2 ≡ fp % 2 ^ 31 = omega arith in
    rw (sum, upper)
      (ground
        (arith, agree_low_trans p (fp % 2 ^ 31) fp (v / 2) (agree_low-mod p 31 fp (omega arith)) h))

pub stored-push_all :
    (p b : ℕ) (xs merged : Bucket) (v : ℕ)
    → p < 32
    → b < 2
    → v % 2 ≡ b
    → stored p xs (v / 2) ≡ true
    → stored (suc p) (push_all b xs merged) v ≡ true
unfolding stored push_all
stored-push_all p b [] merged v small bit e h = absurd (ground arith)
stored-push_all p b (fp ∷ rest) merged v small bit e h =
    elim (Bool-cases (agree_low p fp (v / 2))) [
      | inl here ↦
          stored-push_all_mono (suc p) b rest (append_bit b fp ∷ merged) v
            (ground (arith, agree_low-append_bit p b fp v small bit e here))
      | inr later ↦
          stored-push_all p b rest (append_bit b fp ∷ merged) v small bit e (ground (arith, h))
    ]

-- Merging keeps what either bucket stands for.
pub stored-absorb_dest :
    (p : ℕ) (dest src : Bucket) (v : ℕ)
    → stored p dest v ≡ true
    → stored p (absorb dest src) v ≡ true
unfolding absorb
stored-absorb_dest p dest [] v h = h
stored-absorb_dest p dest (fp ∷ rest) v h =
    stored-absorb_dest p (insert_new dest fp) rest v (stored-insert_new_mono p dest fp v h)

pub stored-absorb_src :
    (p : ℕ) (dest src : Bucket) (v : ℕ)
    → stored p src v ≡ true
    → stored p (absorb dest src) v ≡ true
unfolding absorb stored
stored-absorb_src p dest [] v h = absurd (ground arith)
stored-absorb_src p dest (fp ∷ rest) v h = elim (Bool-cases (agree_low p fp v)) [
  | inl here ↦
      stored-absorb_dest p (insert_new dest fp) rest v (stored-insert_new_self p dest fp v here)
  | inr later ↦ stored-absorb_src p (insert_new dest fp) rest v (ground (arith, h))
]
