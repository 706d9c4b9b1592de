-- ===== src/Probes.antt =====
-- The loops over the hash indices of one item that the filters of src/Bloom share: the test of
-- bloom_filter_contains and elastic_bloom_filter_contains, and the indices that an item touches.
use poseidon.Prelude.{
  ℕ, zero, suc, ◌+◌, ◌<◌, ◌≤◌, ◌≡◌, refl, Bool, true, false, ◌||◌, arith, ◌==◌, if◌then◌else◌,
  ==_iff, Bool-cases, inl, inr,
}
use poseidon.Bitset.{Bitset, get}

module _ (index : ℕ → ℕ) where
  -- `for (; n > 0; n--, i++) if (!bitset_get(bits, index(i))) return false; return true;`
  unfoldable pub present : Bitset → ℕ → ℕ → Bool
  present bits zero i = true
  present bits (suc n) i =
      let rest = present bits n (i + 1) in if get bits (index i) then rest else false

  -- Whether `j` is one of the `n` indices from round `i` on.
  unfoldable pub hit : ℕ → ℕ → ℕ → Bool
  hit zero i j = false
  hit (suc n) i j = index i == j || hit n (i + 1) j

module _ (index : ℕ → ℕ) where
  pub hit_of_round : (n i k : ℕ) → i ≤ k → k < i + n → hit index n i (index k) ≡ true
  unfolding hit
  hit_of_round zero i k p q = absurd (omega arith)
  hit_of_round (suc n) i k p q = elim (Bool-cases (i == k)) [
    | inl e ↦ rw ((==_iff i k).0 e) (ground arith)
    | inr e ↦ ground (arith, hit_of_round n (i + 1) k)
  ]

  -- The test succeeds exactly when every index is set.
  pub present_of_hits :
      (bits : Bitset) (n i : ℕ)
      → ((j : ℕ) → hit index n i j ≡ true → get bits j ≡ true)
      → present index bits n i ≡ true
  unfolding present hit
  present_of_hits bits zero i h = refl
  present_of_hits bits (suc n) i h =
      ground (arith, h (index i), present_of_hits bits n (i + 1) (λ j e. h j (ground arith)))

  pub get_of_present :
      (bits : Bitset) (n i j : ℕ)
      → present index bits n i ≡ true
      → hit index n i j ≡ true
      → get bits j ≡ true
  unfolding present hit
  get_of_present bits zero i j p q = absurd (ground arith)
  get_of_present bits (suc n) i j p q = elim (Bool-cases (index i == j)) [
    | inl e ↦ rw (← (==_iff (index i) j).0 e) (ground arith)
    | inr e ↦ ground (arith, get_of_present bits n (i + 1) j)
  ]

  pub present_mono :
      (a b : Bitset) (n i : ℕ)
      → ((j : ℕ) → get a j ≡ true → get b j ≡ true)
      → present index a n i ≡ true
      → present index b n i ≡ true
  present_mono a b n i h p = present_of_hits b n i (λ j e. h j (get_of_present a n i j p e))

  pub present_ext :
      (a b : Bitset) (n i : ℕ)
      → ((j : ℕ) → get a j ≡ get b j)
      → present index a n i ≡ present index b n i
  unfolding present
  present_ext a b zero i h = refl
  present_ext a b (suc n) i h = ground (arith, h (index i), present_ext a b n (i + 1) h)

  -- Every index of a round from `i` to `i + n` is set.
  pub present_of_rounds :
      (bits : Bitset) (n i : ℕ)
      → ((k : ℕ) → i ≤ k → k < i + n → get bits (index k) ≡ true)
      → present index bits n i ≡ true
  unfolding present
  present_of_rounds bits zero i h = refl
  present_of_rounds bits (suc n) i h =
      ground
        (arith, h i, present_of_rounds bits n (i + 1) (λ k p q. h k (omega arith) (omega arith)))
