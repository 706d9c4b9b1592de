-- ===== src/Bitset/Access.antt =====
-- Reading and writing single bits of a bit set, and its compaction.
use Prim.Native.Nat.{max}
use poseidon.Prelude.{
  ℕ, zero, suc, ◌+◌, ◌-◌, ◌/◌, ◌%◌, ◌≤◌, ◌<◌, ◌≡◌, ◌≢◌, ◌⊎◌, ap, List, Bool, true, false, inl, inr,
  arith, ◌==◌, if◌then◌else◌, length, get_or, replicate, length-append, length-replicate,
  length-set, length-take, get_or_beyond, get_or-append, get_or-replicate, get_or-set, get_or-take,
  Bool-cases, ==_iff,
}
use poseidon.Prelude.Bits.{
  test_bit, test_bit-bit_or, test_bit-bit_and, test_bit-pow, test_bit-zero, test_bit_mask,
}
use poseidon.Bitset.{
  Bitset, create, size, get, put, ensure_capacity, write_bit, compact_size, compact,
}

-- A byte past the end reads as 0, so the bounds check of `get` is no special case.
pub get-eq-test_bit : (s : Bitset) (i : ℕ) → get s i ≡ test_bit (get_or s.bytes (i / 8) 0) (i % 8)
unfolding get
get-eq-test_bit s i = ground (arith, get_or_beyond s.bytes (i / 8) 0, test_bit-zero (i % 8))

pub get-create : (n i : ℕ) → get (create n) i ≡ false
unfolding create
get-create n i = rw (get-eq-test_bit, get_or-replicate) (test_bit-zero (i % 8))

get_or-ensure_capacity :
    (bytes : List ℕ) (k i : ℕ) → get_or (ensure_capacity bytes k) i 0 ≡ get_or bytes i 0
unfolding ensure_capacity
get_or-ensure_capacity bytes k i = ground (
  arith,
  get_or-append bytes (replicate (k + 1 - length bytes) 0) i 0,
  get_or-replicate {A = ℕ} (k + 1 - length bytes) 0 (i - length bytes),
  get_or_beyond bytes i 0,
)

length-ensure_capacity :
    (bytes : List ℕ) (k : ℕ) → length (ensure_capacity bytes k) ≡ max (length bytes) (k + 1)
unfolding ensure_capacity
length-ensure_capacity bytes k = ground (
  arith,
  length-append bytes (replicate (k + 1 - length bytes) 0),
  length-replicate {0} {A = ℕ} (k + 1 - length bytes) 0,
)

test_bit-write_bit :
    (x j k : ℕ) (v : Bool)
    → j < 8
    → k < 8
    → test_bit (write_bit x j v) k ≡ (if j == k then v else test_bit x k)
unfolding write_bit
test_bit-write_bit x j k true hj hk = rw test_bit-bit_or (ground (arith, test_bit-pow k j))
test_bit-write_bit x j k false hj hk = rw test_bit-bit_and (ground (arith, test_bit_mask j k hj hk))

-- The set after a write, through the size that the write leaves.
pub size-put : (s : Bitset) (i : ℕ) (v : Bool) → size (put s i v).1 ≡ max (size s) (i / 8 + 1)
unfolding put
size-put s i v = rw length-set (length-ensure_capacity s.bytes (i / 8))

pub put-eq-get : (s : Bitset) (i : ℕ) (v : Bool) → (put s i v).0 ≡ get s i
unfolding put
put-eq-get s i v = rw (get-eq-test_bit, get_or-ensure_capacity)

-- After a bit is written, a read of that bit gives the value, and a read of any other bit what it
-- gave before, in range or not.
pub get-put :
    (s : Bitset) (i j : ℕ) (v : Bool) → get (put s i v).1 j ≡ (if i == j then v else get s j)
unfolding put
get-put s i j v =
    rw (get-eq-test_bit (put s i v).1 j, get_or-set)
      (ground (
        arith,
        get-eq-test_bit s j,
        get_or-ensure_capacity s.bytes (i / 8) (i / 8),
        get_or-ensure_capacity s.bytes (i / 8) (j / 8),
        length-ensure_capacity s.bytes (i / 8),
        test_bit-write_bit (get_or s.bytes (i / 8) 0) (i % 8) (j % 8) v,
      ))

-- The loop of `compact` stops at a size of at most 1, or where the last byte is not 0; what it
-- cuts off is 0.
compact_size-le : (bytes : List ℕ) (n : ℕ) → compact_size bytes n ≤ n
unfolding compact_size
compact_size-le bytes zero = omega arith
compact_size-le bytes (suc n) = ground (arith, compact_size-le bytes n)

compact_size_cuts_zeros :
    (bytes : List ℕ) (n i : ℕ) → compact_size bytes n ≤ i → i < n → get_or bytes i 0 ≡ 0
unfolding compact_size
compact_size_cuts_zeros bytes zero i h lt = absurd (omega arith)
compact_size_cuts_zeros bytes (suc n) i h lt = elim (Bool-cases (n == i)) [
  | inl e ↦ ground (arith, ap (λ (k : ℕ). get_or bytes k 0) ((==_iff n i).0 e))
  | inr e ↦ ground (arith, compact_size_cuts_zeros bytes n i)
]

compact_size_stops :
    (bytes : List ℕ) (n : ℕ)
    → (compact_size bytes n ≤ 1) ⊎ (get_or bytes (compact_size bytes n - 1) 0 ≢ 0)
unfolding compact_size
compact_size_stops bytes zero = inl (omega arith)
compact_size_stops bytes (suc n) = ground (arith, compact_size_stops bytes n)

pub get-compact : (s : Bitset) (i : ℕ) → get (compact s) i ≡ get s i
unfolding compact
get-compact s i =
    rw (get-eq-test_bit (compact s) i, get_or-take)
      (ground (
        arith,
        get-eq-test_bit s i,
        compact_size_cuts_zeros s.bytes (size s) (i / 8),
        get_or_beyond s.bytes (i / 8) 0,
        test_bit-zero (i % 8),
      ))

pub size-compact-le : (s : Bitset) → size (compact s) ≤ size s
unfolding compact
size-compact-le s = rw length-take (omega arith)

pub compact_stops :
    (s : Bitset) → (size (compact s) ≤ 1) ⊎ (get_or (compact s).bytes (size (compact s) - 1) 0 ≢ 0)
unfolding compact
compact_stops s = ground (
  arith,
  length-take (compact_size s.bytes (size s)) s.bytes,
  get_or-take (compact_size s.bytes (size s)) s.bytes (compact_size s.bytes (size s) - 1) 0,
  compact_size-le s.bytes (size s),
  compact_size_stops s.bytes (size s),
)
