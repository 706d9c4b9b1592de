-- ===== src/Elastic/Answers.antt =====
-- What the buckets record of an item, and what the filter answers for it.
use poseidon.Prelude.{
  ℕ, zero, suc, ◌+◌, ◌/◌, ◌≤◌, ◌<◌, ◌≡◌, ◌∙◌, ap, refl, List, true, not, arith, ◌==◌, length,
  length-set, get_or-set, set, Bool-cases, inl, inr, if_intro, ==_iff, lt→ltb,
}
use poseidon.Bitset
use poseidon.Bitset.{Bitset}
use poseidon.Probes.{present_of_rounds}
use poseidon.Buckets.{Bucket, at, insert_new}
use poseidon.Buckets.Stored.{
  stored, agree_low, agree_low-fingerprint, is_empty_of_stored, stored-insert_new_mono,
  stored-insert_new_self,
}
use poseidon.Elastic.{Floats, Filter, add_loop, hash, index, fingerprint, record_item, contains}
use poseidon.Elastic.Invariant.{IsConsistent}

module _ (index fp : ℕ → ℕ) (p : ℕ) where
  -- One round keeps what any bucket stands for.
  stored-set :
      (buckets : List Bucket) (i j v : ℕ)
      → index i < length buckets
      → stored p (at buckets j) v ≡ true
      → stored p (at (set buckets (index i) (insert_new (at buckets (index i)) (fp i))) j) v ≡ true
  stored-set buckets i j v inside h = rw get_or-set (
      if_intro (λ (b : Bucket). stored p b v ≡ true) (index i == j) _ _
        (λ e. rw (lt→ltb _ _ inside) (
          stored-insert_new_mono p (at buckets (index i)) (fp i) v
            (rw ((==_iff (index i) j).0 e) h)))
        (λ _. h))

  stored-set_self :
      (buckets : List Bucket) (i v : ℕ)
      → index i < length buckets
      → agree_low p (fp i) v ≡ true
      → stored p (at (set buckets (index i) (insert_new (at buckets (index i)) (fp i))) (index i)) v
        ≡ true
  stored-set_self buckets i v inside a =
      rw (get_or-set, (==_iff (index i) (index i)).1 refl, lt→ltb _ _ inside)
        (stored-insert_new_self p (at buckets (index i)) (fp i) v a)

  add_loop-stored :
      (n i : ℕ) (bits : Bitset) (buckets : List Bucket) (j v : ℕ)
      → ((k : ℕ) → index k < length buckets)
      → stored p (at buckets j) v ≡ true
      → stored p (at (add_loop index fp n i bits buckets).1 j) v ≡ true
  unfolding add_loop
  add_loop-stored zero i bits buckets j v inside h = h
  add_loop-stored (suc n) i bits buckets j v inside h =
      let b : Bucket = insert_new (at buckets (index i)) (fp i) in
      add_loop-stored n (i + 1) (Bitset.put bits (index i) true).1 (set buckets (index i) b) j v
        (λ k. omega (arith, inside k, length-set buckets (index i) b))
        (stored-set buckets i j v (inside i) h)

  -- Each round puts its own fingerprint into its bucket.
  add_loop-stored_self :
      (n i : ℕ) (bits : Bitset) (buckets : List Bucket) (k v : ℕ)
      → ((m : ℕ) → index m < length buckets)
      → i ≤ k
      → k < i + n
      → agree_low p (fp k) v ≡ true
      → stored p (at (add_loop index fp n i bits buckets).1 (index k)) v ≡ true
  unfolding add_loop
  add_loop-stored_self zero i bits buckets k v inside lo hi a = absurd (omega arith)
  add_loop-stored_self (suc n) i bits buckets k v inside lo hi a = elim (Bool-cases (i == k)) [
    | inl e ↦
        let same : i ≡ k = (==_iff i k).0 e in
        add_loop-stored n (i + 1) (Bitset.put bits (index i) true).1
          (set buckets (index i) (insert_new (at buckets (index i)) (fp i))) (index k) v
          (λ m. omega (
            arith,
            inside m,
            length-set buckets (index i) (insert_new (at buckets (index i)) (fp i)),
          ))
          (rw (← same) (stored-set_self buckets i v (inside i) (rw same a)))
    | inr e ↦
        add_loop-stored_self n (i + 1) (Bitset.put bits (index i) true).1
          (set buckets (index i) (insert_new (at buckets (index i)) (fp i))) k v
          (λ m. omega (
            arith,
            inside m,
            length-set buckets (index i) (insert_new (at buckets (index i)) (fp i)),
          ))
          (ground arith) (omega arith) a
  ]

module _ (floats : Floats) (xxh3 : List ℕ → ℕ → ℕ) where
  open floats use {Float}

  -- Each bucket that item `d` touches holds an entry for it, good to `p` digits.
  abbrev pub Records : ℕ → Filter Float → List ℕ → Type 0
  Records p e d =
      (i : ℕ)
      → i < e.hash_count
      → stored p (at e.buckets (index floats xxh3 e d i)) (hash floats xxh3 e d i / e.size) ≡ true

  -- In a consistent filter an item that is recorded, to any number of digits, is found.
  pub contains_of_Records :
      {e : Filter Float} (p : ℕ) (d : List ℕ)
      → IsConsistent e
      → Records p e d
      → contains floats xxh3 e d ≡ true
  unfolding contains
  contains_of_Records {e} p d c r =
      present_of_rounds (index floats xxh3 e d) e.bits e.hash_count 0 λ k lo hi.
        c.agrees (index floats xxh3 e d k) ∙ ap not (is_empty_of_stored p _ _ (r k (omega arith)))

  module _ {e : Filter Float} (d : List ℕ) (positive : 0 < e.size) (c : IsConsistent e) where
    within : (i : ℕ) → index floats xxh3 e d i < length e.buckets
    within i = omega (arith, c.sized)

    pub record_item-Records_self :
        (p : ℕ) → p ≤ e.fp_bits → p ≤ 32 → Records p (record_item floats xxh3 e d) d
    unfolding record_item
    record_item-Records_self p h k i hi =
        add_loop-stored_self (index floats xxh3 e d) (fingerprint floats xxh3 e d) p e.hash_count 0
          e.bits e.buckets i (hash floats xxh3 e d i / e.size) within (omega arith) (omega arith)
          (agree_low-fingerprint p e.fp_bits (hash floats xxh3 e d i / e.size) h k)

    pub record_item-Records :
        (p : ℕ) (x : List ℕ) → Records p e x → Records p (record_item floats xxh3 e d) x
    unfolding record_item
    record_item-Records p x r i hi =
        add_loop-stored (index floats xxh3 e d) (fingerprint floats xxh3 e d) p e.hash_count 0
          e.bits e.buckets (index floats xxh3 e x i) (hash floats xxh3 e x i / e.size) within
          (r i hi)
