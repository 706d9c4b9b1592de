-- ===== src/Attenuated/Routing.antt =====
-- Which level answers for a topic, after subscriptions and merges.
use poseidon.Prelude.{
  ℕ, zero, suc, ◌+◌, ◌*◌, ◌^◌, ◌≤◌, ◌<◌, ◌≡◌, ◌↔◌, ap, List, [], ◌∷◌, true, false, some, arith,
  get_elem?, Bool-cases, inl, inr,
}
use poseidon.Elastic
use poseidon.Elastic.{Floats, Filter}
use poseidon.Elastic.Invariant.{IsConsistent}
use poseidon.Elastic.Keeps.{merge-IsConsistent}
use poseidon.Elastic.Answers.{Records, contains_of_Records}
use poseidon.Elastic.Resize.{merge-Records_src}
use poseidon.Elastic.Growth.{contains-add_self}
use poseidon.Attenuated.{Attenuated, get_level, merge_levels, merge, subscribe, check_from, check}

module _ (floats : Floats) (xxh3 : List ℕ → ℕ → ℕ) where
  open floats use {Float}

  -- Level `k` answers, and no level below it does.
  abbrev pub IsNearest : List (Filter Float) → List ℕ → ℕ → Type 0
  IsNearest [] topic k = ⊥
  IsNearest (e ∷ rest) topic zero = Elastic.contains floats xxh3 e topic ≡ true
  IsNearest (e ∷ rest) topic (suc k) =
      (Elastic.contains floats xxh3 e topic ≡ false) × IsNearest rest topic k

  check_from-ge :
      (level k : ℕ) (levels : List (Filter Float)) (topic : List ℕ)
      → check_from floats xxh3 level levels topic ≡ some k
      → level ≤ k
  unfolding check_from
  check_from-ge level k [] topic h = absurd (ground arith)
  check_from-ge level k (e ∷ rest) topic h = ground (arith, check_from-ge (level + 1) k rest topic)

  check_from-IsNearest :
      (level k : ℕ) (levels : List (Filter Float)) (topic : List ℕ)
      → (check_from floats xxh3 level levels topic ≡ some (level + k)) ↔ IsNearest levels topic k
  unfolding check_from
  check_from-IsNearest level k [] topic = (λ h. ground arith, λ h. absurd h)
  check_from-IsNearest level zero (e ∷ rest) topic =
      (λ h. ground (arith, check_from-ge (level + 1) (level + 0) rest topic), λ h. ground arith)
  check_from-IsNearest level (suc k) (e ∷ rest) topic =
      let shift : level + suc k ≡ level + 1 + k = omega arith in
      (
        λ h. ground (
          arith,
          (check_from-IsNearest (level + 1) k rest topic).0,
          ap (λ (n : ℕ). some n) shift,
        ),
        λ h. ground (
          arith,
          (check_from-IsNearest (level + 1) k rest topic).1 h.1,
          ap (λ (n : ℕ). some n) shift,
        ),
      )

  -- A check answers `k` hops exactly where level `k` contains the topic and no level below it
  -- does.
  pub check_iff :
      (a : Attenuated Float) (topic : List ℕ) (k : ℕ)
      → (check floats xxh3 a topic ≡ some k) ↔ IsNearest a.levels topic k
  unfolding check
  check_iff a topic k =
      let start : 0 + k ≡ k = omega arith in rw start at (check_from-IsNearest 0 k a.levels topic)

  check_from-found :
      (level j : ℕ) (levels : List (Filter Float)) (topic : List ℕ) {e : Filter Float}
      → get_elem? levels j ≡ some e
      → Elastic.contains floats xxh3 e topic ≡ true
      → (k : ℕ) × (check_from floats xxh3 level levels topic ≡ some k) × (k ≤ level + j)
  unfolding check_from
  check_from-found level j [] topic at_j h = absurd (ground arith)
  check_from-found level zero (d ∷ rest) topic at_j h = (level, ground arith, omega arith)
  check_from-found level (suc j) (d ∷ rest) topic at_j h =
      elim (Bool-cases (Elastic.contains floats xxh3 d topic)) [
        | inl here ↦ (level, rw here, omega arith)
        | inr above ↦
            let (k, found, low) = check_from-found (level + 1) j rest topic at_j h in
            (k, rw above found, omega arith)
      ]

  check-subscribe_levels :
      (levels : List (Filter Float)) (a' : Attenuated Float) {e : Filter Float} (topic : List ℕ)
      → get_elem? levels 0 ≡ some e
      → Elastic.contains floats xxh3 (Elastic.add floats xxh3 e topic) topic ≡ true
      → subscribe floats xxh3 (record { levels = levels }) topic ≡ some a'
      → check floats xxh3 a' topic ≡ some 0
  unfolding subscribe check check_from
  check-subscribe_levels [] a' topic first h s = absurd (ground arith)
  check-subscribe_levels (d ∷ rest) a' topic first h s = ground arith

  -- Where level 0 is consistent, has a positive size, at least one bit of fingerprint and room to
  -- double in 64 bits, a topic that was just subscribed is found at level 0.
  pub check-subscribe :
      (a a' : Attenuated Float) {e : Filter Float} (topic : List ℕ)
      → get_level floats a 0 ≡ some e
      → IsConsistent e
      → 0 < e.size
      → e.size * 2 < 2 ^ 64
      → 1 ≤ e.fp_bits
      → subscribe floats xxh3 a topic ≡ some a'
      → check floats xxh3 a' topic ≡ some 0
  unfolding get_level
  check-subscribe a a' topic first c positive small digits h =
      check-subscribe_levels a.levels a' topic first
        (contains-add_self floats xxh3 topic c positive small digits) h

  get_elem?-merge_levels :
      (dest src : List (Filter Float)) (i : ℕ) {d s : Filter Float}
      → get_elem? dest i ≡ some d
      → get_elem? src i ≡ some s
      → get_elem? (merge_levels floats dest src) i ≡ some (Elastic.merge floats d s).1
  unfolding merge_levels
  get_elem?-merge_levels [] src i hd hs = absurd (ground arith)
  get_elem?-merge_levels (d ∷ dest) [] i hd hs = absurd (ground arith)
  get_elem?-merge_levels (d ∷ dest) (s ∷ src) zero hd hs = ground arith
  get_elem?-merge_levels (d ∷ dest) (s ∷ src) (suc i) hd hs =
      get_elem?-merge_levels dest src i hd hs

  check-merge_levels :
      (dest src : List (Filter Float)) (merged : Attenuated Float) {d s : Filter Float} (i : ℕ)
      (topic : List ℕ)
      → get_elem? dest (suc i) ≡ some d
      → get_elem? src i ≡ some s
      → Elastic.contains floats xxh3 (Elastic.merge floats d s).1 topic ≡ true
      → merge floats (record { levels = dest }) (record { levels = src }) ≡ some merged
      → (k : ℕ) × (check floats xxh3 merged topic ≡ some k) × (k ≤ suc i)
  unfolding merge check
  check-merge_levels [] src merged i topic at_d at_s found h = absurd (ground arith)
  check-merge_levels (d ∷ dest) src merged i topic at_d at_s found h =
      let levels : d ∷ merge_levels floats dest src ≡ merged.levels = ground arith in
      rw (← levels) (
        let (k, answer, near) =
          check_from-found 0 (suc i) (d ∷ merge_levels floats dest src) topic
            (get_elem?-merge_levels dest src i at_d at_s) found in
        (k, answer, omega arith))

  -- Where level `i` of the source and level `i + 1` of the destination are consistent and have the
  -- same size and seeds, the destination's has at most the rounds of the source's, and the
  -- source's records a topic to `p` digits, a check of the merged filter finds the topic at some
  -- level that is at most `i + 1`.
  pub check-merge :
      (dest src merged : Attenuated Float) {d s : Filter Float} (p i : ℕ) (topic : List ℕ)
      → get_level floats dest (suc i) ≡ some d
      → get_level floats src i ≡ some s
      → IsConsistent d
      → IsConsistent s
      → d.size ≡ s.size
      → d.seed_a ≡ s.seed_a
      → d.seed_b ≡ s.seed_b
      → d.hash_count ≤ s.hash_count
      → Records floats xxh3 p s topic
      → merge floats dest src ≡ some merged
      → (k : ℕ) × (check floats xxh3 merged topic ≡ some k) × (k ≤ suc i)
  unfolding get_level
  check-merge dest src merged p i topic at_d at_s c c' size_eq a_eq b_eq rounds r h =
      check-merge_levels dest.levels src.levels merged i topic at_d at_s
        (contains_of_Records floats xxh3 p topic (merge-IsConsistent floats c c')
          (merge-Records_src floats xxh3 p topic c c' size_eq a_eq b_eq rounds r))
        h
