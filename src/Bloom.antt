-- ===== src/Bloom.antt =====
-- src/Bloom/bloom_filter.c: a Bloom filter with double hashing.
pub mod Membership
mod Tests
use poseidon.Prelude.{
  ℕ, zero, suc, ◌+◌, ◌*◌, ◌/◌, ◌%◌, ◌^◌, List, Bool, true, false, ltb, if◌then◌else◌,
}
use poseidon.Bitset
use poseidon.Bitset.{Bitset}
use poseidon.Probes.{present}

-- `bloom_filter_t`
pub record Filter : Type 0 where
  pub bits : Bitset
  pub size : ℕ
  pub hash_count : ℕ
  pub seed_a : ℕ
  pub seed_b : ℕ
  pub count : ℕ

-- The bytes that hold `size` bits.
abbrev pub byte_size : ℕ → ℕ
byte_size size = if ltb 0 (size % 8) then size / 8 + 1 else size / 8

-- bloom_filter_create
unfoldable pub create : ℕ → ℕ → Filter
create size hash_count = record {
  bits = Bitset.create (byte_size size);
  size = size;
  hash_count = hash_count;
  seed_a = 1;
  seed_b = 2;
  count = 0;
}

-- The loop of bloom_filter_add at round `i`, with `n` rounds left.
unfoldable pub add_loop : (ℕ → ℕ) → ℕ → ℕ → Bitset → Bool → Bitset × Bool
add_loop index zero i bits is_new = (bits, is_new)
add_loop index (suc n) i bits is_new =
    add_loop index n (i + 1) (Bitset.put bits (index i) true).1
      (if Bitset.get bits (index i) then is_new else true)

-- XXH3_64bits_withSeed(data, len, seed), from the data and the seed.
module _ (xxh3 : List ℕ → ℕ → ℕ) where
  -- `(a + (uint64_t)i * b + (uint64_t)i * i) % filter->size`, for a filter with a positive size: with
  -- the size 0, where the code divides by zero, this value means nothing.
  abbrev pub index : Filter → List ℕ → ℕ → ℕ
  index f bytes i =
      let a = xxh3 bytes f.seed_a in
      let b = xxh3 bytes f.seed_b in (a + i * b + i * i) % 2 ^ 64 % f.size

  -- bloom_filter_add, for a filter and data that are not NULL.
  unfoldable pub add : Filter → List ℕ → Filter
  add f bytes =
      let (bits', is_new) = add_loop (index f bytes) f.hash_count 0 f.bits false in
      record f { bits = bits'; count = if is_new then (f.count + 1) % 2 ^ 64 else f.count }

  -- bloom_filter_contains, for a filter and data that are not NULL.
  unfoldable pub contains : Filter → List ℕ → Bool
  contains f bytes = present (index f bytes) f.bits f.hash_count 0

-- bloom_filter_reset
unfoldable pub reset : Filter → Filter
reset f = record f { bits = Bitset.create (byte_size f.size); count = 0 }
