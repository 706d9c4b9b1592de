-- ===== src/Bloom/Membership.antt =====
-- What a Bloom filter answers after insertions and a reset.
use poseidon.Prelude.{
  ℕ, zero, suc, ◌+◌, ◌%◌, ◌^◌, ◌≡◌, List, Bool, true, false, not, ◌||◌, arith, ◌==◌, if◌then◌else◌,
  Bool-cases, inl, inr, ==_iff,
}
use poseidon.Bitset
use poseidon.Bitset.{Bitset}
use poseidon.Bitset.Access.{get-put, get-create}
use poseidon.Probes.{present, hit, present_of_hits, present_mono, present_ext, get_of_present}
use poseidon.Bloom.{Filter, add_loop, byte_size, index, add, contains, reset}

module _ (index : ℕ → ℕ) where
  get-add_loop :
      (n i : ℕ) (bits : Bitset) (is_new : Bool) (j : ℕ)
      → Bitset.get (add_loop index n i bits is_new).0 j ≡ (Bitset.get bits j || hit index n i j)
  unfolding add_loop hit
  get-add_loop zero i bits is_new j = ground arith
  get-add_loop (suc n) i bits is_new j = ground (
    arith,
    get-add_loop n (i + 1) (Bitset.put bits (index i) true).1
        (if Bitset.get bits (index i) then is_new else true) j,
    get-put bits (index i) j true,
  )

  get-put_set :
      (bits : Bitset) (k j : ℕ)
      → Bitset.get bits k ≡ true
      → Bitset.get (Bitset.put bits k true).1 j ≡ Bitset.get bits j
  get-put_set bits k j h = elim (Bool-cases (k == j)) [
    | inl e ↦ rw (get-put, e) (rw (← (==_iff k j).0 e) (rw h))
    | inr e ↦ rw (get-put, e)
  ]

  -- The loop reports a new item exactly when the test before it would have failed.
  is_new-add_loop :
      (n i : ℕ) (bits : Bitset) (is_new : Bool)
      → (add_loop index n i bits is_new).1 ≡ (is_new || not (present index bits n i))
  unfolding add_loop present
  is_new-add_loop zero i bits is_new = ground arith
  is_new-add_loop (suc n) i bits is_new = elim (Bool-cases (Bitset.get bits (index i))) [
    | inl e ↦ ground (
      arith,
      is_new-add_loop n (i + 1) (Bitset.put bits (index i) true).1 is_new,
      present_ext index (Bitset.put bits (index i) true).1 bits n (i + 1)
          (λ j. get-put_set bits (index i) j e),
    )
    | inr e ↦ ground (arith, is_new-add_loop n (i + 1) (Bitset.put bits (index i) true).1 true)
  ]

  present-create : (n i bytes : ℕ) → present index (Bitset.create bytes) n i ≡ (n == 0)
  unfolding present
  present-create zero i bytes = ground arith
  present-create (suc n) i bytes = ground (arith, get-create bytes (index i))

module _ (xxh3 : List ℕ → ℕ → ℕ) where
  -- After `add`, the bits that were set, and those of the new item.
  pub get-add :
      (f : Filter) (d : List ℕ) (j : ℕ)
      → Bitset.get (add xxh3 f d).bits j
        ≡ (Bitset.get f.bits j || hit (index xxh3 f d) f.hash_count 0 j)
  unfolding add
  get-add f d j = get-add_loop (index xxh3 f d) f.hash_count 0 f.bits false j

  pub contains-add_self : (f : Filter) (d : List ℕ) → contains xxh3 (add xxh3 f d) d ≡ true
  unfolding contains add
  contains-add_self f d =
      present_of_hits (index xxh3 f d) (add_loop (index xxh3 f d) f.hash_count 0 f.bits false).0
        f.hash_count 0
        (λ j e. ground (arith, get-add_loop (index xxh3 f d) f.hash_count 0 f.bits false j))

  -- What a Bloom filter contains it still contains after any insertion.
  pub contains-add_mono :
      (f : Filter) (d e : List ℕ) → contains xxh3 f e ≡ true → contains xxh3 (add xxh3 f d) e ≡ true
  unfolding contains add
  contains-add_mono f d e h =
      present_mono (index xxh3 f e) f.bits (add_loop (index xxh3 f d) f.hash_count 0 f.bits false).0
        f.hash_count 0
        (λ j p. ground (arith, get-add_loop (index xxh3 f d) f.hash_count 0 f.bits false j)) h

  -- An insertion counts exactly the items that the filter did not contain, modulo 2 ^ 64.
  pub count-add :
      (f : Filter) (d : List ℕ)
      → (add xxh3 f d).count ≡ (if contains xxh3 f d then f.count else (f.count + 1) % 2 ^ 64)
  unfolding add contains
  count-add f d = ground (arith, is_new-add_loop (index xxh3 f d) f.hash_count 0 f.bits false)

  -- An item that the filter already answers for changes no bit.
  pub get-add_present :
      (f : Filter) (d : List ℕ) (j : ℕ)
      → contains xxh3 f d ≡ true
      → Bitset.get (add xxh3 f d).bits j ≡ Bitset.get f.bits j
  unfolding contains
  get-add_present f d j h = ground (
    arith,
    get-add f d j,
    get_of_present (index xxh3 f d) f.bits f.hash_count 0 j h,
    Bool-cases (Bitset.get f.bits j),
  )

  -- After a reset every answer is "no", unless the filter has no hash functions.
  pub contains-reset : (f : Filter) (d : List ℕ) → contains xxh3 (reset f) d ≡ (f.hash_count == 0)
  unfolding contains reset
  contains-reset f d = present-create (index xxh3 (reset f) d) f.hash_count 0 (byte_size f.size)
