-- ===== src/Buckets.antt =====
-- The cooperative buckets of src/Bloom/elastic_bloom_filter.c: lists of fingerprints, newest first.
pub mod Stored
use Prim.Native.Nat.{bit_and, bit_or}
use poseidon.Prelude.{
  ℕ, zero, suc, ◌+◌, ◌*◌, ◌/◌, ◌%◌, ◌^◌, ◌≡◌, List, [], ◌∷◌, Bool, true, false, ◌||◌, arith, ◌==◌,
  ==_iff, if◌then◌else◌, Bool-cases, inl, inr, refl, ◌&&◌, get_or, replicate,
}

abbrev pub Bucket : Type 0
Bucket = List ℕ

-- bucket_is_empty
abbrev pub is_empty : Bucket → Bool
is_empty [] = true
is_empty (fp ∷ rest) = false

-- bucket_contains
unfoldable pub contains : Bucket → ℕ → Bool
contains [] fp = false
contains (x ∷ rest) fp = if x == fp then true else contains rest fp

-- bucket_insert, under the guard that every caller but `decode` puts before it.
unfoldable pub insert_new : Bucket → ℕ → Bucket
insert_new b fp = if contains b fp then b else fp ∷ b

-- bucket_remove: the first entry with the fingerprint.
unfoldable pub remove : Bucket → ℕ → Bucket
remove [] fp = []
remove (x ∷ rest) fp = let kept = remove rest fp in if x == fp then rest else x ∷ kept

-- The inner loop of elastic_bloom_filter_expand: entries with lowest bit 0 stay, the others move.
unfoldable pub split : Bucket → Bucket → Bucket → Bucket × Bucket
split [] stay move = (stay, move)
split (fp ∷ rest) stay move =
    let low = bit_and fp 1 == 0 in
    split rest (if low then (fp / 2) ∷ stay else stay) (if low then move else (fp / 2) ∷ move)

-- `fp << 1` in a uint32_t, with the bit that elastic_bloom_filter_compress puts below it.
abbrev pub append_bit : ℕ → ℕ → ℕ
append_bit b fp = bit_or (fp * 2 % 2 ^ 32) b

-- One of the two inner loops of elastic_bloom_filter_compress.
unfoldable pub push_all : ℕ → Bucket → Bucket → Bucket
push_all b [] merged = merged
push_all b (fp ∷ rest) merged = push_all b rest (append_bit b fp ∷ merged)

-- The inner loop of elastic_bloom_filter_merge.
unfoldable pub absorb : Bucket → Bucket → Bucket
absorb dest [] = dest
absorb dest (fp ∷ rest) = absorb (insert_new dest fp) rest

-- The number of non-empty buckets, as elastic_bloom_filter_ratio counts it.
unfoldable pub occupied : List Bucket → ℕ
occupied [] = 0
occupied (b ∷ rest) = (if is_empty b then 0 else 1) + occupied rest

-- Bucket `j`; a bucket that does not exist reads as empty.
abbrev pub at : List Bucket → ℕ → Bucket
at buckets j = get_or buckets j []

pub is_empty_of_contains : (b : Bucket) (fp : ℕ) → contains b fp ≡ true → is_empty b ≡ false
unfolding contains
is_empty_of_contains [] fp h = ground arith
is_empty_of_contains (x ∷ rest) fp h = refl

pub contains-insert_new :
    (b : Bucket) (fp x : ℕ)
    → contains (insert_new b fp) x ≡ (if fp == x then true else contains b x)
unfolding insert_new contains
contains-insert_new b fp x = elim (Bool-cases (fp == x)) [
  | inl e ↦ let same : fp ≡ x = (==_iff fp x).0 e in rw (← same) (ground arith)
  | inr e ↦ ground arith
]

pub is_empty-insert_new : (b : Bucket) (fp : ℕ) → is_empty (insert_new b fp) ≡ false
unfolding insert_new
is_empty-insert_new b fp = ground (arith, is_empty_of_contains b fp)

pub is_empty-push_all :
    (c : ℕ) (b merged : Bucket) → is_empty (push_all c b merged) ≡ (is_empty b && is_empty merged)
unfolding push_all
is_empty-push_all c [] merged = refl
is_empty-push_all c (fp ∷ rest) merged =
    ground (arith, is_empty-push_all c rest (append_bit c fp ∷ merged))

pub contains-absorb :
    (dest src : Bucket) (x : ℕ) → contains (absorb dest src) x ≡ (contains dest x || contains src x)
unfolding absorb contains
contains-absorb dest [] x = ground arith
contains-absorb dest (fp ∷ rest) x =
    ground (arith, contains-absorb (insert_new dest fp) rest x, contains-insert_new dest fp x)

pub is_empty-absorb :
    (dest src : Bucket) → is_empty (absorb dest src) ≡ (is_empty dest && is_empty src)
unfolding absorb
is_empty-absorb dest [] = ground arith
is_empty-absorb dest (fp ∷ rest) =
    ground (arith, is_empty-absorb (insert_new dest fp) rest, is_empty-insert_new dest fp)

pub occupied-replicate : (n : ℕ) → occupied (replicate n []) ≡ 0
unfolding occupied
occupied-replicate zero = refl
occupied-replicate (suc n) = omega (arith, occupied-replicate n)

pub is_empty-remove : (b : Bucket) (fp : ℕ) → is_empty b ≡ true → is_empty (remove b fp) ≡ true
unfolding remove
is_empty-remove [] fp h = refl
is_empty-remove (x ∷ rest) fp h = absurd (ground arith)
