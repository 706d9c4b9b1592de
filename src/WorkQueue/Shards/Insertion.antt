-- ===== src/WorkQueue/Shards/Insertion.antt =====
-- An enqueue keeps the shards.
use poseidon.Prelude.{
  ℕ, ◌<◌, ◌≡◌, refl, ap, sym, ◌∙◌, Bool, true, false, ◌||◌, inl, inr, Bool-cases, ==_iff,
  length-set, none, some, List, [], ◌∷◌, ◌++◌, arith, ◌==◌, if◌then◌else◌, get_or, set, get_or-set,
}
use mathlib.Core.Path.{subst}
use poseidon.WorkQueue.{Heap, Queue, init, enqueue}
use poseidon.WorkQueue.Chain.{Cells, IsQueue, has, has_snoc, apart, fresh, frame}
use poseidon.WorkQueue.Fifo.{enqueue-snoc}
use poseidon.WorkQueue.Shards.{queue_shards, put_in, AllPositive, Shards}

-- An item more, where the test holds.
abbrev more : Bool → ℕ → ℕ → Cells → Cells
more b a w xs = if b then xs ++ (a, w) ∷ [] else xs

AllPositive-more :
    (b : Bool) (a w : ℕ) (xs : Cells) → 0 < w → AllPositive xs → AllPositive (more b a w xs)
AllPositive-more false a w xs pos h = h
AllPositive-more true a w [] pos h = (pos, refl)
AllPositive-more true a w ((p, v) ∷ xs) pos (v_pos, h) = (v_pos, AllPositive-more true a w xs pos h)

has-more :
    (c : Bool) (b a w : ℕ) (xs : Cells)
    → has b (more c a w xs) ≡ (has b xs || (if c then b == a else false))
has-more true b a w xs = has_snoc b a w xs
has-more false b a w xs = ground arith

module _ {h : Heap} {queues : List Queue} {xs : ℕ → Cells} {idx a w : ℕ} {h' : Heap} {q' : Queue}
    (s : Shards h queues xs) (small : idx < queue_shards) (free : h a ≡ none) (w_pos : 0 < w)
    (c : IsQueue h' q' (xs idx ++ (a, w) ∷ []))
    (kept : (b : ℕ) → (b == a) ≡ false → has b (xs idx) ≡ false → h' b ≡ h b) where
  each_more :
      (b : Bool) (i : ℕ)
      → (i == idx) ≡ b
      → IsQueue h' (get_or (set queues idx q') i init) (more b a w (xs i))
  each_more true i e =
      let same : i ≡ idx = (==_iff i idx).0 e in
      let got : get_or (set queues idx q') i init ≡ q' =
        ground (arith, get_or-set queues idx i q' init, s.sized) in
      subst (λ q. IsQueue h' q (xs i ++ (a, w) ∷ [])) (sym got)
        (subst (IsQueue h' q') (ap (λ k. xs k ++ (a, w) ∷ []) (sym same)) c)
  each_more false i e =
      let got : get_or (set queues idx q') i init ≡ get_or queues i init =
        ground (arith, get_or-set queues idx i q' init, e) in
      subst (λ q. IsQueue h' q (xs i)) (sym got)
        (frame (s.each i) (λ b inside.
          kept b (apart a b (xs i) (fresh a (s.each i) free) inside) (s.distinct i idx b e inside)))

  distinct_more :
      (c d : Bool) (i j b : ℕ)
      → (i == idx) ≡ c
      → (j == idx) ≡ d
      → (i == j) ≡ false
      → has b (more c a w (xs i)) ≡ true
      → has b (more d a w (xs j)) ≡ false
  distinct_more true true i j b e f away inside = absurd (ground (arith, e, f, away))
  distinct_more true false i j b e f away inside = elim (Bool-cases (b == a)) [
    | inl here ↦
        let same : b ≡ a = (==_iff b a).0 here in
        ap (λ k. has k (xs j)) same ∙ fresh a (s.each j) free
    | inr other ↦ s.distinct i j b away (ground (arith, has_snoc b a w (xs i), other, inside))
  ]
  distinct_more false d i j b e f away inside = ground (
    arith,
    has-more d b a w (xs j),
    s.distinct i j b away inside,
    apart a b (xs i) (fresh a (s.each i) free) inside,
  )

  -- The shards after one of them has got an item.
  pub put-Shards : Shards h' (set queues idx q') (put_in idx a w xs)
  put-Shards = record {
    sized = length-set queues idx q' ∙ s.sized;
    each = λ i. each_more (i == idx) i refl;
    works_pos = λ i. AllPositive-more (i == idx) a w (xs i) w_pos (s.works_pos i);
    distinct = λ i j b away inside. distinct_more (i == idx) (j == idx) i j b refl refl away inside;
  }

-- An enqueue to one shard keeps the others.
pub enqueue-Shards :
    (h : Heap) (queues : List Queue) (xs : ℕ → Cells) (idx a w : ℕ)
    → Shards h queues xs
    → idx < queue_shards
    → 0 < a
    → h a ≡ none
    → 0 < w
    → (h' : Heap) × (q' : Queue) × (enqueue h (get_or queues idx init) a w ≡ some (h', q'))
      × Shards h' (set queues idx q') (put_in idx a w xs)
enqueue-Shards h queues xs idx a w s small pos free w_pos =
    let (h', q', e, c, kept) =
      enqueue-snoc h (get_or queues idx init) a w (xs idx) (s.each idx) pos free in
    (h', q', e, put-Shards s small free w_pos c kept)
