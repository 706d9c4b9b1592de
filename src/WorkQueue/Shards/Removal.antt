-- ===== src/WorkQueue/Shards/Removal.antt =====
-- A scan for work keeps the shards.
use poseidon.Prelude.{
  ℕ, zero, suc, ◌+◌, ◌%◌, ◌<◌, ◌≡◌, refl, ap, sym, ◌∙◌, Bool, true, false, ◌⊎◌, inl, inr, ==_iff,
  length-set, some, List, [], ◌∷◌, arith, ◌==◌, if◌then◌else◌, get_or, set, get_or-set,
}
use mathlib.Core.Path.{subst}
use poseidon.WorkQueue.{Heap, Queue, init, dequeue}
use poseidon.WorkQueue.Chain.{Cells, nil, IsQueue, has, frame}
use poseidon.WorkQueue.Fifo.{dequeue-cons}
use poseidon.WorkQueue.Shards.{
  queue_shards, scan, first_front, tail, take_from, after, AllPositive, Shards,
}

Cells-cases : (xs : Cells) → (xs ≡ []) ⊎ ((p : ℕ) × (w : ℕ) × (ys : Cells) × (xs ≡ (p, w) ∷ ys))
Cells-cases [] = inl refl
Cells-cases ((p, w) ∷ ys) = inr (p, w, ys, refl)

dequeue-nil : (h : Heap) (q : Queue) → IsQueue h q [] → dequeue h q ≡ some (0, h, q)
unfolding dequeue
dequeue-nil h q nil = refl

set-get_or : (qs : List Queue) (i : ℕ) → set qs i (get_or qs i init) ≡ qs
set-get_or [] i = refl
set-get_or (q ∷ qs) zero = refl
set-get_or (q ∷ qs) (suc i) = ap (q ∷◌) (set-get_or qs i)

AllPositive-if : (b : Bool) (xs : Cells) → AllPositive xs → AllPositive (if b then tail xs else xs)
AllPositive-if false xs h = h
AllPositive-if true [] h = h
AllPositive-if true ((p, w) ∷ xs) (_, h) = h

inside_if :
    (c : Bool) (b : ℕ) (xs : Cells) → has b (if c then tail xs else xs) ≡ true → has b xs ≡ true
inside_if false b xs h = h
inside_if true b [] h = h
inside_if true b ((p, w) ∷ xs) h = ground (arith, h)

outside_if :
    (c : Bool) (b : ℕ) (xs : Cells) → has b xs ≡ false → has b (if c then tail xs else xs) ≡ false
outside_if false b xs h = h
outside_if true b [] h = h
outside_if true b ((p, w) ∷ xs) h = ground (arith, h)

module _ {h : Heap} {queues : List Queue} {xs : ℕ → Cells} {idx p w : ℕ} {ys : Cells} {h' : Heap}
    {q' : Queue} (s : Shards h queues xs) (small : idx < queue_shards) (here : xs idx ≡ (p, w) ∷ ys)
    (c : IsQueue h' q' ys) (kept : (b : ℕ) → has b ((p, w) ∷ ys) ≡ false → h' b ≡ h b) where
  each_if :
      (b : Bool) (i : ℕ)
      → (i == idx) ≡ b
      → IsQueue h' (get_or (set queues idx q') i init) (if b then tail (xs i) else xs i)
  each_if true i e =
      let same : i ≡ idx = (==_iff i idx).0 e in
      let got : get_or (set queues idx q') i init ≡ q' =
        ground (arith, get_or-set queues idx i q' init, s.sized) in
      let left : tail (xs i) ≡ ys = ap (λ k. tail (xs k)) same ∙ ap tail here in
      subst (λ q. IsQueue h' q (tail (xs i))) (sym got) (subst (IsQueue h' q') (sym left) c)
  each_if false i e =
      let got : get_or (set queues idx q') i init ≡ get_or queues i init =
        ground (arith, get_or-set queues idx i q' init, e) in
      subst (λ q. IsQueue h' q (xs i)) (sym got)
        (frame (s.each i)
          (λ b inside. kept b (ap (has b) (sym here) ∙ s.distinct i idx b e inside)))

  -- The shards after one of them has lost its first item.
  taken-Shards : Shards h' (set queues idx q') (take_from idx xs)
  taken-Shards = record {
    sized = length-set queues idx q' ∙ s.sized;
    each = λ i. each_if (i == idx) i refl;
    works_pos = λ i. AllPositive-if (i == idx) (xs i) (s.works_pos i);
    distinct = λ i j b away inside.
        outside_if (j == idx) b (xs j)
          (s.distinct i j b away (inside_if (i == idx) b (xs i) inside));
  }

-- A scan of `n` shards from the place `i` on never follows a pointer to no item: it takes the first
-- item of the first shard that has one.
pub scan_lem :
    (n i shard : ℕ) (h : Heap) (queues : List Queue) (xs : ℕ → Cells)
    → Shards h queues xs
    → (h' : Heap) × (queues' : List Queue) × (scan n i shard h queues
        ≡ some (first_front n i shard xs, h', queues'))
      × Shards h' queues' (after n i shard xs)
unfolding scan first_front after
scan_lem zero i shard h queues xs s = (h, queues, refl, s)
scan_lem (suc n) i shard h queues xs s =
    let idx : ℕ = (shard + i) % queue_shards in
    elim (Cells-cases (xs idx)) [
      | inl e ↦
          let c : IsQueue h (get_or queues idx init) [] =
            subst (IsQueue h (get_or queues idx init)) e (s.each idx) in
          rw (dequeue-nil h (get_or queues idx init) c, e, set-get_or queues idx)
            (scan_lem n (i + 1) shard h queues xs s)
      | inr (p, w, ys, e) ↦
          let (h', q', taken, c, kept) =
            dequeue-cons h (get_or queues idx init) p w ys
              (subst (IsQueue h (get_or queues idx init)) e (s.each idx)) in
          let pos : AllPositive ((p, w) ∷ ys) = subst AllPositive e (s.works_pos idx) in
          let not_null : (w == 0) ≡ false = ground (arith, pos.0) in
          (
            h',
            set queues idx q',
            rw (taken, e, not_null) refl,
            rw (e, not_null) (taken-Shards s (omega arith) e c kept),
          )
    ]
