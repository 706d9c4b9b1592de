-- ===== src/Elastic/Invariant.antt =====
-- The invariant of the filter: one bucket for each bit, and a bit is set exactly where its bucket is
-- not empty.
use poseidon.Prelude.{
  ℕ, zero, suc, ◌+◌, ◌<◌, ◌≡◌, ◌∙◌, ap, refl, List, [], ◌∷◌, Bool, true, false, not, ◌||◌, ◌&&◌,
  arith, ltb, leb, ◌==◌, ==_iff, if◌then◌else◌, length, length-set, get_or-set, get_or_beyond, set,
  Bool-cases, inl, inr,
}
use poseidon.Bitset
use poseidon.Bitset.{Bitset}
use poseidon.Bitset.Access.{get-put, get-create}
use poseidon.Buckets
use poseidon.Bloom.{byte_size}
use poseidon.Buckets.{
  Bucket, at, is_empty, insert_new, absorb, split, is_empty-insert_new, is_empty-absorb,
  is_empty-remove,
}
use poseidon.Elastic.{Filter, rebuild_loop, rebuild, add_loop, remove_loop, join_loop, absorb_all}

abbrev pub Agrees : Bitset → List Bucket → Type 0
Agrees bits buckets = (j : ℕ) → Bitset.get bits j ≡ not (is_empty (at buckets j))

pub record IsConsistent {Float : Type 0} (e : Filter Float) : Type 0 where
  pub counted : e.bucket_count ≡ e.size
  pub sized : length e.buckets ≡ e.size
  pub agrees : Agrees e.bits e.buckets

get-rebuild_loop :
    (n i j : ℕ) (buckets : List Bucket) (bits : Bitset)
    → Bitset.get (rebuild_loop n i buckets bits) j
      ≡ (Bitset.get bits j || (leb i j && ltb j (i + n) && not (is_empty (at buckets j))))
unfolding rebuild_loop
get-rebuild_loop zero i j buckets bits = ground arith
get-rebuild_loop (suc n) i j buckets bits = elim (Bool-cases (i == j)) [
  | inl e ↦
      let same : i ≡ j = (==_iff i j).0 e in
      rw (← same) (
        ground (
          arith,
          get-rebuild_loop n (i + 1) i buckets
              (if is_empty (at buckets i) then bits else (Bitset.put bits i true).1),
          get-put bits i i true,
        ))
  | inr e ↦ ground (
    arith,
    get-rebuild_loop n (i + 1) j buckets
        (if is_empty (at buckets i) then bits else (Bitset.put bits i true).1),
    get-put bits i j true,
  )
]

pub rebuild-Agrees :
    (size : ℕ) (buckets : List Bucket)
    → length buckets ≡ size
    → Agrees (rebuild size buckets) buckets
unfolding rebuild
rebuild-Agrees size buckets h j = ground (
  arith,
  get-rebuild_loop size 0 j buckets (Bitset.create (byte_size size)),
  get-create (byte_size size) j,
  get_or_beyond buckets j [],
)

-- One write of a bucket together with its bit.
pub set-Agrees :
    (bits : Bitset) (buckets : List Bucket) (k : ℕ) (b : Bucket) (v : Bool)
    → k < length buckets
    → v ≡ not (is_empty b)
    → Agrees bits buckets
    → Agrees (Bitset.put bits k v).1 (set buckets k b)
set-Agrees bits buckets k b v h e agrees j = rw (get-put, get_or-set) (ground (arith, agrees j))

-- A bucket that loses an entry clears its bit only when nothing is left.
erase-Agrees :
    (bits : Bitset) (buckets : List Bucket) (k fp : ℕ)
    → k < length buckets
    → Agrees bits buckets
    → Agrees
        (if is_empty (Buckets.remove (at buckets k) fp) then (Bitset.put bits k false).1 else bits)
        (set buckets k (Buckets.remove (at buckets k) fp))
erase-Agrees bits buckets k fp h agrees j = rw get_or-set (
    ground (
      arith,
      get-put bits k j false,
      agrees j,
      ==_iff k j,
      is_empty-remove (at buckets k) fp,
      λ (e : k ≡ j). ap (λ (m : ℕ). is_empty (at buckets m)) e,
    ))

module _ (index : ℕ → ℕ) (fp : ℕ → ℕ) (size : ℕ) (within : (i : ℕ) → index i < size) where
  pub add_loop-Agrees :
      (n i : ℕ) (bits : Bitset) (buckets : List Bucket)
      → length buckets ≡ size
      → Agrees bits buckets
      → (length (add_loop index fp n i bits buckets).1 ≡ size)
        × Agrees (add_loop index fp n i bits buckets).0 (add_loop index fp n i bits buckets).1
  unfolding add_loop
  add_loop-Agrees zero i bits buckets h agrees = (h, agrees)
  add_loop-Agrees (suc n) i bits buckets h agrees =
      let b : Bucket = insert_new (at buckets (index i)) (fp i) in
      add_loop-Agrees n (i + 1) (Bitset.put bits (index i) true).1 (set buckets (index i) b)
        (length-set buckets (index i) b ∙ h)
        (set-Agrees bits buckets (index i) b true (omega (arith, within i))
          (ground (arith, is_empty-insert_new (at buckets (index i)) (fp i))) agrees)

  pub remove_loop-Agrees :
      (n i : ℕ) (bits : Bitset) (buckets : List Bucket)
      → length buckets ≡ size
      → Agrees bits buckets
      → (length (remove_loop index fp n i bits buckets).1 ≡ size)
        × Agrees (remove_loop index fp n i bits buckets).0 (remove_loop index fp n i bits buckets).1
  unfolding remove_loop
  remove_loop-Agrees zero i bits buckets h agrees = (h, agrees)
  remove_loop-Agrees (suc n) i bits buckets h agrees =
      let b : Bucket = Buckets.remove (at buckets (index i)) (fp i) in
      remove_loop-Agrees n (i + 1)
        (if is_empty b then (Bitset.put bits (index i) false).1 else bits) (set buckets (index i) b)
        (length-set buckets (index i) b ∙ h)
        (erase-Agrees bits buckets (index i) (fp i) (omega (arith, within i)) agrees)

pub length-join_loop :
    (half n i : ℕ) (buckets : List Bucket) → length (join_loop half n i buckets) ≡ n
unfolding join_loop
length-join_loop half zero i buckets = refl
length-join_loop half (suc n) i buckets = ap suc (length-join_loop half n (i + 1) buckets)

pub length-absorb_all : (dest src : List Bucket) → length (absorb_all dest src) ≡ length dest
unfolding absorb_all
length-absorb_all [] src = refl
length-absorb_all (d ∷ dest) [] = refl
length-absorb_all (d ∷ dest) (s ∷ src) = ap suc (length-absorb_all dest src)

pub at-absorb_all :
    (dest src : List Bucket) (j : ℕ)
    → length dest ≡ length src
    → at (absorb_all dest src) j ≡ absorb (at dest j) (at src j)
unfolding absorb_all absorb
at-absorb_all [] [] j h = refl
at-absorb_all [] (s ∷ src) j h = absurd (omega arith)
at-absorb_all (d ∷ dest) [] j h = absurd (omega arith)
at-absorb_all (d ∷ dest) (s ∷ src) zero h = refl
at-absorb_all (d ∷ dest) (s ∷ src) (suc j) h = at-absorb_all dest src j (omega arith)
