-- ===== src/Elastic/Resize.antt =====
-- Doubling, halving and merging, and what a filter records.
use poseidon.Prelude.{
  ℕ, zero, suc, ◌+◌, ◌-◌, ◌*◌, ◌/◌, ◌%◌, ◌^◌, ◌≤◌, ◌<◌, ◌≡◌, ◌||◌, refl, sym, List, [], ◌∷◌, ◌++◌,
  map, true, not, arith, ltb, ltb→lt, ◌==◌, if◌then◌else◌, length, length-map, get_or-append, inl,
  inr, if_intro,
}
use native.Mathlib.Nat.{mul-suc, mod-lt, add-zero, zero-add}
use poseidon.Prelude.Division.{div_mod_double, parity}
use poseidon.Buckets.{Bucket, at, split, push_all}
use poseidon.Buckets.Stored.{
  stored, stored-split_even, stored-split_odd, stored-push_all, stored-push_all_mono,
  stored-absorb_dest, stored-absorb_src,
}
use poseidon.Elastic.{Floats, Filter, join_loop, hash, index, Status, expand, compress, merge}
use poseidon.Elastic.Invariant.{IsConsistent, at-absorb_all}
use poseidon.Elastic.Answers.{Records}

abbrev stays : Bucket → Bucket
stays b = (split b [] []).0

abbrev moves : Bucket → Bucket
moves b = (split b [] []).1

at-map :
    (f : Bucket → Bucket) (buckets : List Bucket) (j : ℕ)
    → f [] ≡ []
    → at (map f buckets) j ≡ f (at buckets j)
at-map f [] j e = sym e
at-map f (b ∷ rest) zero e = refl
at-map f (b ∷ rest) (suc j) e = at-map f rest j e

-- Bucket `j` after the split of every bucket.
at-split :
    (buckets : List Bucket) (n j : ℕ)
    → length buckets ≡ n
    → (at (map stays buckets ++ map moves buckets) j
        ≡ (if ltb j n then stays (at buckets j) else moves (at buckets (j - n))))
unfolding split
at-split buckets n j e = ground (
  arith,
  get_or-append (map stays buckets) (map moves buckets) j [],
  length-map stays buckets,
  at-map stays buckets j refl,
  at-map moves buckets (j - n) refl,
)

low_half : (n r b : ℕ) → r + n * b < n → b ≡ 0
low_half n r zero h = refl
low_half n r (suc b) h = absurd (omega (arith, mul-suc n b))

high_half : (n r b : ℕ) → r < n → b < 2 → n ≤ r + n * b → b ≡ 1
high_half n r zero h k l = absurd (omega arith)
high_half n r (suc zero) h k l = refl
high_half n r (suc (suc b)) h k l = absurd (omega arith)

-- The entry for the number `h` after the split.
split-stored :
    (buckets : List Bucket) (p n h : ℕ)
    → length buckets ≡ n
    → 0 < n
    → stored (suc p) (at buckets (h % n)) (h / n) ≡ true
    → stored p (at (map stays buckets ++ map moves buckets) (h % (n * 2))) (h / (n * 2)) ≡ true
split-stored buckets p n h e positive r =
    rw (at-split buckets n (h % (n * 2)) e, quotient)
      (if_intro (λ (b : Bucket). stored p b (h / n / 2) ≡ true) (ltb (h % (n * 2)) n) _ _
        (λ low.
          let even : h / n % 2 ≡ 0 =
            low_half n (h % n) (h / n % 2) (omega (arith, ltb→lt (h % (n * 2)) n low, remainder)) in
          let same : h % (n * 2) ≡ h % n = rw (remainder, even) (omega arith) in
          rw same (stored-split_even p (at buckets (h % n)) [] [] (h / n) even r))
        (λ high.
          let odd : h / n % 2 ≡ 1 =
            high_half n (h % n) (h / n % 2) (mod-lt h positive) (omega arith)
              (ground (arith, remainder)) in
          let same : h % (n * 2) - n ≡ h % n = rw (remainder, odd) (omega arith) in
          rw same (stored-split_odd p (at buckets (h % n)) [] [] (h / n) odd r)))
  where
    quotient : h / (n * 2) ≡ h / n / 2
    quotient = (div_mod_double h n positive).0

    remainder : h % (n * 2) ≡ h % n + n * (h / n % 2)
    remainder = (div_mod_double h n positive).1

-- Bucket `j` after the join of the halves.
at-join_loop :
    (half n i j : ℕ) (buckets : List Bucket)
    → j < n
    → at (join_loop half n i buckets) j
      ≡ push_all 0 (at buckets (i + j)) (push_all 1 (at buckets (i + j + half)) [])
unfolding join_loop
at-join_loop half zero i j buckets h = absurd (omega arith)
at-join_loop half (suc n) i zero buckets h = rw add-zero
at-join_loop half (suc n) i (suc j) buckets h =
    let shift : i + suc j ≡ i + 1 + j = omega arith in
    rw shift (at-join_loop half n (i + 1) j buckets (omega arith))

-- The entry for the number `h` after the join.
join-stored :
    (buckets : List Bucket) (p half h : ℕ)
    → 0 < half
    → p < 32
    → stored p (at buckets (h % (half * 2))) (h / (half * 2)) ≡ true
    → stored (suc p) (at (join_loop half half 0 buckets) (h % half)) (h / half) ≡ true
join-stored buckets p half h positive small r =
    rw (at-join_loop half half 0 (h % half) buckets (mod-lt h positive), zero-add)
      (elim (parity (h / half)) [
        | inl even ↦
            let same : h % (half * 2) ≡ h % half = rw (remainder, even) (omega arith) in
            stored-push_all p 0 (at buckets (h % half)) _ (h / half) small (omega arith) even
              (rw (← quotient, ← same) r)
        | inr odd ↦
            let same : h % (half * 2) ≡ h % half + half = rw (remainder, odd) (omega arith) in
            stored-push_all_mono (suc p) 0 (at buckets (h % half)) _ (h / half) (
              stored-push_all p 1 (at buckets (h % half + half)) [] (h / half) small (omega arith)
                odd (rw (← quotient, ← same) r))
      ])
  where
    quotient : h / (half * 2) ≡ h / half / 2
    quotient = (div_mod_double h half positive).0

    remainder : h % (half * 2) ≡ h % half + half * (h / half % 2)
    remainder = (div_mod_double h half positive).1

module _ (floats : Floats) (xxh3 : List ℕ → ℕ → ℕ) where
  open floats use {Float}

  -- An expansion of a consistent filter with a positive size and room to double in 64 bits keeps
  -- every item that is recorded to `p + 1` digits, to `p` digits.
  pub expand-Records :
      {e : Filter Float} (p : ℕ) (d : List ℕ)
      → 0 < e.size
      → e.size * 2 < 2 ^ 64
      → IsConsistent e
      → Records floats xxh3 (suc p) e d
      → Records floats xxh3 p (expand floats e) d
  unfolding expand
  expand-Records {e} p d positive small c r i hi =
      let wrap : e.size * 2 % 2 ^ 64 ≡ e.size * 2 = omega arith in
      rw wrap (split-stored e.buckets p e.size (hash floats xxh3 e d i) c.sized positive (r i hi))

  -- A compression of a consistent filter of even size that is not 0 keeps every item that is
  -- recorded to `p` digits, `p` below 32, to `p + 1` digits.
  pub compress-Records :
      {e : Filter Float} (p half : ℕ) (d : List ℕ)
      → 0 < half
      → e.size ≡ half * 2
      → p < 32
      → IsConsistent e
      → Records floats xxh3 p e d
      → Records floats xxh3 (suc p) (compress floats e).1 d
  unfolding compress
  compress-Records {e} p half d positive even small c r =
      if_intro (λ (s : Status × Filter Float). Records floats xxh3 (suc p) s.1 d)
        (ltb e.bucket_count 2) _ _
        (λ few. absurd (omega (arith, c.counted, ltb→lt e.bucket_count 2 few)))
        (λ _ i hi.
          let count_half : e.bucket_count / 2 ≡ half = omega (arith, c.counted) in
          let size_half : e.size / 2 ≡ half = omega arith in
          rw (count_half, size_half)
            (join-stored e.buckets p half (hash floats xxh3 e d i) positive small
              (rw (← even) (r i hi))))

  -- Merging keeps what either filter records, if they hash alike.
  pub merge-Records_dest :
      {dest src : Filter Float} (p : ℕ) (d : List ℕ)
      → IsConsistent dest
      → IsConsistent src
      → Records floats xxh3 p dest d
      → Records floats xxh3 p (merge floats dest src).1 d
  unfolding merge
  merge-Records_dest {dest} {src} p d c k r =
      if_intro (λ (s : Status × Filter Float). Records floats xxh3 p s.1 d)
        (not (dest.size == src.size) || not (dest.bucket_count == src.bucket_count)) _ _ (λ _. r)
        (λ alike i hi.
          rw
            (at-absorb_all dest.buckets src.buckets (index floats xxh3 dest d i)
              (ground (arith, c.sized, k.sized)))
            (stored-absorb_dest p _ _ _ (r i hi)))

  -- The second filter must have the size, the seeds and at least the rounds of the first.
  pub merge-Records_src :
      {dest src : Filter Float} (p : ℕ) (d : List ℕ)
      → IsConsistent dest
      → IsConsistent src
      → dest.size ≡ src.size
      → dest.seed_a ≡ src.seed_a
      → dest.seed_b ≡ src.seed_b
      → dest.hash_count ≤ src.hash_count
      → Records floats xxh3 p src d
      → Records floats xxh3 p (merge floats dest src).1 d
  unfolding merge
  merge-Records_src {dest} {src} p d c k size_eq a_eq b_eq rounds r =
      if_intro (λ (s : Status × Filter Float). Records floats xxh3 p s.1 d)
        (not (dest.size == src.size) || not (dest.bucket_count == src.bucket_count)) _ _
        (λ differ. absurd (ground (arith, c.counted, k.counted)))
        (λ alike i hi.
          rw
            (
              at-absorb_all dest.buckets src.buckets (index floats xxh3 dest d i)
                  (ground (arith, c.sized, k.sized)),
              a_eq,
              b_eq,
              size_eq,
            )
            (stored-absorb_src p _ _ _ (r i (omega arith))))
