-- ===== src/Elastic.antt =====
-- src/Bloom/elastic_bloom_filter.c: a Bloom filter with a bucket of fingerprints for each bit, which
-- doubles and halves with its load.
pub mod Invariant
pub mod Keeps
pub mod Answers
pub mod Resize
pub mod Growth
pub mod Tests
use poseidon.Prelude.{
  ℕ, zero, suc, ◌+◌, ◌-◌, ◌*◌, ◌/◌, ◌%◌, ◌^◌, List, [], ◌∷◌, ◌++◌, map, Bool, true, false, ◌||◌,
  not, ltb, leb, ◌==◌, if◌then◌else◌, length, set, replicate,
}
use poseidon.Bitset
use poseidon.Bitset.{Bitset}
use poseidon.Probes.{present}
use poseidon.Bloom.{byte_size}
use poseidon.Buckets.{
  Bucket, is_empty, insert_new, remove as bucket_remove, split, push_all, absorb, occupied, at,
}

-- The C type `float` and the operations that the filter uses: a cast from an integer, division and
-- `<`. Nothing is assumed of them.
pub record Floats : Type 1 where
  pub Float : Type 0
  pub cast : ℕ → Float
  pub divide : Float → Float → Float
  pub less : Float → Float → Bool

-- The statuses 0, -1 and -2.
pub data Status : Type 0 where
  done failed mismatch : Status

-- `elastic_bloom_filter_t`
pub record Filter (Float : Type 0) : Type 0 where
  pub bits : Bitset
  pub size : ℕ
  pub bucket_count : ℕ
  pub buckets : List Bucket
  pub hash_count : ℕ
  pub seed_a : ℕ
  pub seed_b : ℕ
  pub omega : Float
  pub fp_bits : ℕ
  pub count : ℕ

-- The loop of rebuild_bitset at bucket `i`, with `n` buckets left.
unfoldable pub rebuild_loop : ℕ → ℕ → List Bucket → Bitset → Bitset
rebuild_loop zero i buckets bits = bits
rebuild_loop (suc n) i buckets bits =
    rebuild_loop n (i + 1) buckets
      (if is_empty (at buckets i) then bits else (Bitset.put bits i true).1)

-- rebuild_bitset
unfoldable pub rebuild : ℕ → List Bucket → Bitset
rebuild size buckets = rebuild_loop size 0 buckets (Bitset.create (byte_size size))

-- The loops of add and remove at round `i`, with `n` rounds left, over the pairs of an index and a
-- fingerprint that compute_hash_pair yields.
unfoldable pub add_loop : (ℕ → ℕ) → (ℕ → ℕ) → ℕ → ℕ → Bitset → List Bucket → Bitset × List Bucket
add_loop index fp zero i bits buckets = (bits, buckets)
add_loop index fp (suc n) i bits buckets =
    add_loop index fp n (i + 1) (Bitset.put bits (index i) true).1
      (set buckets (index i) (insert_new (at buckets (index i)) (fp i)))

unfoldable pub remove_loop : (ℕ → ℕ) → (ℕ → ℕ) → ℕ → ℕ → Bitset → List Bucket → Bitset × List Bucket
remove_loop index fp zero i bits buckets = (bits, buckets)
remove_loop index fp (suc n) i bits buckets =
    let rest = bucket_remove (at buckets (index i)) (fp i) in
    remove_loop index fp n (i + 1)
      (if is_empty rest then (Bitset.put bits (index i) false).1 else bits)
      (set buckets (index i) rest)

-- The outer loop of compress at bucket `i`, with `n` rounds left.
unfoldable pub join_loop : ℕ → ℕ → ℕ → List Bucket → List Bucket
join_loop half zero i buckets = []
join_loop half (suc n) i buckets =
    push_all 0 (at buckets i) (push_all 1 (at buckets (i + half)) [])
    ∷ join_loop half n (i + 1) buckets

-- The outer loop of merge.
unfoldable pub absorb_all : List Bucket → List Bucket → List Bucket
absorb_all (d ∷ dest) (s ∷ src) = absorb d s ∷ absorb_all dest src
absorb_all dest _ = dest

module _ (floats : Floats) where
  open floats use {Float, cast, divide, less}

  -- elastic_bloom_filter_create
  unfoldable pub create : ℕ → ℕ → Float → ℕ → Filter Float
  create size hash_count omega fp_bits = record {
    bits = Bitset.create (byte_size size);
    size = size;
    bucket_count = size;
    buckets = replicate size [];
    hash_count = hash_count;
    seed_a = 1;
    seed_b = 2;
    omega = omega;
    fp_bits = fp_bits;
    count = 0;
  }

  -- elastic_bloom_filter_ratio
  unfoldable pub ratio : Filter Float → Float
  ratio e =
      if e.bucket_count == 0
      then cast 0
      else divide (cast (occupied e.buckets)) (cast e.bucket_count)

  -- elastic_bloom_filter_expand
  unfoldable pub expand : Filter Float → Filter Float
  expand e =
      let size' = e.size * 2 % 2 ^ 64 in
      let buckets' =
        map (λ b. (split b [] []).0) e.buckets ++ map (λ b. (split b [] []).1) e.buckets in
      record e {
        bits = rebuild size' buckets';
        size = size';
        bucket_count = e.bucket_count * 2 % 2 ^ 64;
        buckets = buckets';
      }

  -- elastic_bloom_filter_compress
  unfoldable pub compress : Filter Float → Status × Filter Float
  compress e =
      if ltb e.bucket_count 2
      then (failed, e)
      else (let half = e.bucket_count / 2 in
          let buckets' = join_loop half half 0 e.buckets in
          (
            done,
            record e {
              bits = rebuild (e.size / 2) buckets';
              size = e.size / 2;
              bucket_count = half;
              buckets = buckets';
            },
          ))

  -- elastic_bloom_filter_merge
  unfoldable pub merge : Filter Float → Filter Float → Status × Filter Float
  merge dest src =
      if not (dest.size == src.size) || not (dest.bucket_count == src.bucket_count)
      then (mismatch, dest)
      else (
        done,
        record dest {
          bits = Bitset.either dest.bits src.bits;
          buckets = absorb_all dest.buckets src.buckets;
          count = (dest.count + src.count) % 2 ^ 64;
        },
      )

  -- elastic_bloom_filter_bucket_insert
  unfoldable pub bucket_insert : Filter Float → ℕ → ℕ → Status × Filter Float
  bucket_insert e bucket_idx fingerprint = if leb e.bucket_count bucket_idx then (failed, e) else (
    done,
    record e {
      bits = (Bitset.put e.bits bucket_idx true).1;
      buckets = set e.buckets bucket_idx (insert_new (at e.buckets bucket_idx) fingerprint);
    },
  )

  -- XXH3_64bits_withSeed(data, len, seed), from the data and the seed.
  module _ (xxh3 : List ℕ → ℕ → ℕ) where
    -- compute_hash_pair: the hash of round `i`, the index and the fingerprint that it yields.
    abbrev pub hash : Filter Float → List ℕ → ℕ → ℕ
    hash e bytes i = xxh3 bytes ((e.seed_a + i * e.seed_b) % 2 ^ 64)

    abbrev pub index : Filter Float → List ℕ → ℕ → ℕ
    index e bytes i = hash e bytes i % e.size

    abbrev pub fingerprint : Filter Float → List ℕ → ℕ → ℕ
    fingerprint e bytes i = hash e bytes i / e.size % 2 ^ e.fp_bits % 2 ^ 32

    -- elastic_bloom_filter_add up to the unlock, for a filter and data that are not NULL.
    unfoldable pub record_item : Filter Float → List ℕ → Filter Float
    record_item e bytes =
        let (bits', buckets') =
          add_loop (index e bytes) (fingerprint e bytes) e.hash_count 0 e.bits e.buckets in
        record e { bits = bits'; buckets = buckets'; count = (e.count + 1) % 2 ^ 64 }

    -- elastic_bloom_filter_add
    unfoldable pub add : Filter Float → List ℕ → Filter Float
    add e bytes = let e' = record_item e bytes in if less e'.omega (ratio e') then expand e' else e'

    -- elastic_bloom_filter_contains, for a filter and data that are not NULL.
    unfoldable pub contains : Filter Float → List ℕ → Bool
    contains e bytes = present (index e bytes) e.bits e.hash_count 0

    -- elastic_bloom_filter_remove up to the unlock.
    unfoldable pub erase_item : Filter Float → List ℕ → Filter Float
    erase_item e bytes =
        let (bits', buckets') =
          remove_loop (index e bytes) (fingerprint e bytes) e.hash_count 0 e.bits e.buckets in
        record e {
          bits = bits';
          buckets = buckets';
          count = if ltb 0 e.count then e.count - 1 else e.count;
        }

    -- elastic_bloom_filter_remove; the status of compress is dropped, and its early return keeps
    -- the filter.
    unfoldable pub remove : Filter Float → List ℕ → Filter Float
    remove e bytes =
        let e' = erase_item e bytes in
        if less (ratio e') (divide e'.omega (cast 4)) then (compress e').1 else e'
