-- ===== src/Elastic/Keeps.antt =====
-- The operations of the elastic filter and its invariant.
use poseidon.Prelude.{
  ℕ, ◌*◌, ◌/◌, ◌%◌, ◌^◌, ◌<◌, ◌≡◌, ◌∙◌, ap, refl, List, ◌++◌, map, true, false, not, ◌||◌, arith,
  ltb, leb, ◌==◌, length, length-set, length-append, length-map, length-replicate, get_or-replicate,
  Bool-cases, inl, inr, [], if_intro,
}
use poseidon.Bitset.Access.{get-create}
use poseidon.Bitset.Bitwise.{get-either}
use poseidon.Buckets.{Bucket, at, insert_new, split, is_empty-insert_new, is_empty-absorb}
use poseidon.Elastic.{
  Floats, Filter, join_loop, create, expand, compress, merge, bucket_insert, record_item, add,
  erase_item, remove, index, fingerprint,
}
use poseidon.Elastic.Invariant.{
  IsConsistent, rebuild-Agrees, set-Agrees, add_loop-Agrees, remove_loop-Agrees, length-join_loop,
  length-absorb_all, at-absorb_all,
}

module _ (floats : Floats) where
  open floats use {Float}

  pub create-IsConsistent :
      (size hash_count fp_bits : ℕ) (threshold : Float)
      → IsConsistent (create floats size hash_count threshold fp_bits)
  unfolding create
  create-IsConsistent size hash_count fp_bits threshold = record {
    counted = refl;
    sized = length-replicate {A = Bucket} size [];
    agrees = λ j. rw (get-create, get_or-replicate);
  }

  pub expand-IsConsistent :
      {e : Filter Float} → e.size * 2 < 2 ^ 64 → IsConsistent e → IsConsistent (expand floats e)
  unfolding expand
  expand-IsConsistent {e} h c = record {
    counted = ap (λ (n : ℕ). n * 2 % 2 ^ 64) c.counted;
    sized = doubled;
    agrees = rebuild-Agrees (e.size * 2 % 2 ^ 64) (stays ++ moves) doubled;
  }
    where
      stays : List Bucket
      stays = map (λ b. (split b [] []).0) e.buckets

      moves : List Bucket
      moves = map (λ b. (split b [] []).1) e.buckets

      doubled : length (stays ++ moves) ≡ e.size * 2 % 2 ^ 64
      doubled = omega (
        arith,
        c.sized,
        length-append stays moves,
        length-map (λ (b : Bucket). (split b [] []).0) e.buckets,
        length-map (λ (b : Bucket). (split b [] []).1) e.buckets,
      )

  pub compress-IsConsistent :
      {e : Filter Float} → IsConsistent e → IsConsistent (compress floats e).1
  unfolding compress
  compress-IsConsistent {e} c = elim (Bool-cases (ltb e.bucket_count 2)) [
    | inl small ↦ rw small c
    | inr large ↦ rw large (record {
      counted = ap (λ (n : ℕ). n / 2) c.counted;
      sized = halved;
      agrees = rebuild-Agrees (e.size / 2) joined halved;
    })
  ]
    where
      joined : List Bucket
      joined = join_loop (e.bucket_count / 2) (e.bucket_count / 2) 0 e.buckets

      halved : length joined ≡ e.size / 2
      halved =
          length-join_loop (e.bucket_count / 2) (e.bucket_count / 2) 0 e.buckets
          ∙ ap (λ (n : ℕ). n / 2) c.counted

  pub merge-IsConsistent :
      {dest src : Filter Float}
      → IsConsistent dest
      → IsConsistent src
      → IsConsistent (merge floats dest src).1
  unfolding merge
  merge-IsConsistent {dest} {src} c d =
      elim (Bool-cases
        (not (dest.size == src.size) || not (dest.bucket_count == src.bucket_count))) [
          | inl differ ↦ rw differ c
          | inr alike ↦ rw alike (record {
            counted = c.counted;
            sized = length-absorb_all dest.buckets src.buckets ∙ c.sized;
            agrees = λ j.
                rw (get-either, at-absorb_all dest.buckets src.buckets j (lengths alike))
                  (ground (
                    arith,
                    c.agrees j,
                    d.agrees j,
                    is_empty-absorb (at dest.buckets j) (at src.buckets j),
                  ));
          })
        ]
    where
      lengths :
          (not (dest.size == src.size) || not (dest.bucket_count == src.bucket_count)) ≡ false
          → length dest.buckets ≡ length src.buckets
      lengths alike = ground (arith, c.sized, d.sized)

  pub bucket_insert-IsConsistent :
      {e : Filter Float} (k fp : ℕ) → IsConsistent e → IsConsistent (bucket_insert floats e k fp).1
  unfolding bucket_insert
  bucket_insert-IsConsistent {e} k fp c = elim (Bool-cases (leb e.bucket_count k)) [
    | inl outside ↦ rw outside c
    | inr inside ↦ rw inside (record {
      counted = c.counted;
      sized = length-set e.buckets k (insert_new (at e.buckets k) fp) ∙ c.sized;
      agrees =
          set-Agrees e.bits e.buckets k (insert_new (at e.buckets k) fp) true
            (ground (arith, c.counted, c.sized))
            (ground (arith, is_empty-insert_new (at e.buckets k) fp)) c.agrees;
    })
  ]

  module _ (xxh3 : List ℕ → ℕ → ℕ) where
    module _ {e : Filter Float} (d : List ℕ) (positive : 0 < e.size) (c : IsConsistent e) where
      within : (i : ℕ) → index floats xxh3 e d i < e.size
      within i = omega arith

      pub record_item-IsConsistent : IsConsistent (record_item floats xxh3 e d)
      unfolding record_item
      record_item-IsConsistent =
          let kept =
            add_loop-Agrees (index floats xxh3 e d) (fingerprint floats xxh3 e d) e.size within
              e.hash_count 0 e.bits e.buckets c.sized c.agrees in
          record { counted = c.counted; sized = kept.0; agrees = kept.1 }

      erase_item-IsConsistent : IsConsistent (erase_item floats xxh3 e d)
      unfolding erase_item
      erase_item-IsConsistent =
          let kept =
            remove_loop-Agrees (index floats xxh3 e d) (fingerprint floats xxh3 e d) e.size within
              e.hash_count 0 e.bits e.buckets c.sized c.agrees in
          record { counted = c.counted; sized = kept.0; agrees = kept.1 }

      -- For a filter of positive size with room to double in 64 bits, an insertion keeps the
      -- invariant that there is a bucket for each bit and a bit is set exactly where its bucket is
      -- not empty.
      pub add-IsConsistent : e.size * 2 < 2 ^ 64 → IsConsistent (add floats xxh3 e d)
      unfolding add
      add-IsConsistent h =
          if_intro IsConsistent _ _ _
            (λ _.
              expand-IsConsistent {e = record_item floats xxh3 e d} (unfold record_item in h)
                record_item-IsConsistent)
            (λ _. record_item-IsConsistent)

      -- For a filter of positive size, a removal keeps the invariant that there is a bucket for
      -- each bit and a bit is set exactly where its bucket is not empty, with the compression that
      -- it may end in.
      pub remove-IsConsistent : IsConsistent (remove floats xxh3 e d)
      unfolding remove
      remove-IsConsistent =
          if_intro IsConsistent _ _ _ (λ _. compress-IsConsistent erase_item-IsConsistent)
            (λ _. erase_item-IsConsistent)
