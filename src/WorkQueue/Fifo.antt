-- ===== src/WorkQueue/Fifo.antt =====
-- The queue is first in, first out.
use poseidon.Prelude.{
  ℕ, ◌<◌, ◌≡◌, refl, ap, sym, ◌∙◌, true, false, none, some, List, [], ◌∷◌, ◌++◌, arith, ◌==◌,
}
use mathlib.Core.Option.{some-injective}
use mathlib.Core.Path.{subst}
use poseidon.WorkQueue.{Item, Heap, Queue, init, write, enqueue, unlink, dequeue}
use poseidon.WorkQueue.Chain.{
  Cells, nil, cons, IsQueue, has, item_of, frame, apart, Linked, snoc, last_inside, last_item,
  fresh,
}

write-Linked :
    (h : Heap) (a w last : ℕ) (old : Item)
    → h last ≡ some old
    → (last == a) ≡ false
    → Linked h
        (write (write h a (some (item_of w 0 last))) last (some (record old { next = a })))
        a
        w
        last
write-Linked h a w last old e away = record {
  added = ground (arith, away);
  linked = λ i f pos. ground (arith, e, f);
  kept = λ b n m. ground (arith, n, m);
}

same_test : (p : ℕ) → (p == p) ≡ true
same_test p = ground arith

not_null : (p : ℕ) → 0 < p → (p == 0) ≡ false
not_null p h = ground arith

-- A dequeue takes the first item, and leaves the chain of the others.
pub dequeue-cons :
    (h : Heap) (q : Queue) (p w : ℕ) (xs : Cells)
    → IsQueue h q ((p, w) ∷ xs)
    → (h' : Heap) × (q' : Queue) × (dequeue h q ≡ some (w, h', q'))
      × IsQueue h' q' xs
      × ((b : ℕ) → has b ((p, w) ∷ xs) ≡ false → h' b ≡ h b)
unfolding dequeue unlink
dequeue-cons h q p w xs (cons e pos out nil) = (
  write h p none,
  record { first = 0; last = 0 },
  rw (not_null p pos, e, same_test p) refl,
  nil,
  λ b out. ground (arith, out),
)
dequeue-cons h q p w xs (cons e pos out (cons {p = r} {next} {w = v} {xs = ys} f r_pos r_out s)) =
    let ends : (q.last == p) ≡ false =
      apart p q.last ((r, v) ∷ ys) out (last_inside (cons f r_pos r_out s)) in
    let away : (r == p) ≡ false = ground (arith, out) in
    (
      write (write h r (some (item_of v next 0))) p none,
      record { first = r; last = q.last },
      rw (not_null p pos, e, not_null r r_pos, f, ends) refl,
      cons (ground (arith, away)) r_pos r_out (
          frame s
            (λ a i. ground (arith, apart p a ys (ground (arith, out)) i, apart r a ys r_out i))),
      λ b out. ground (arith, out),
    )

-- An enqueue at a free address adds an item at the end.
pub enqueue-snoc :
    (h : Heap) (q : Queue) (a w : ℕ) (xs : Cells)
    → IsQueue h q xs
    → 0 < a
    → h a ≡ none
    → (h' : Heap) × (q' : Queue) × (enqueue h q a w ≡ some (h', q'))
      × IsQueue h' q' (xs ++ (a, w) ∷ [])
      × ((b : ℕ) → (b == a) ≡ false → has b xs ≡ false → h' b ≡ h b)
unfolding enqueue
enqueue-snoc h q a w [] nil pos free = (
  write h a (some (item_of w 0 0)),
  record { first = a; last = a },
  refl,
  cons (ground arith) pos refl nil,
  λ b n m. ground (arith, n),
)
enqueue-snoc h q a w ((p, v) ∷ xs) c pos free =
    let (last_pos, old, e) = last_item c in
    let out : has a ((p, v) ∷ xs) ≡ false = fresh a c free in
    let away : (q.last == a) ≡ false = apart a q.last ((p, v) ∷ xs) out (last_inside c) in
    (
      write (write h a (some (item_of w 0 q.last))) q.last (some (record old { next = a })),
      record { first = q.first; last = a },
      rw (not_null q.last last_pos, away, e) refl,
      snoc a w pos out (write-Linked h a w q.last old e away) c,
      λ b n m. ground (arith, n, apart b q.last ((p, v) ∷ xs) m (last_inside c)),
    )

-- The works of the items.
abbrev pub works : Cells → List ℕ
works [] = []
works ((p, w) ∷ xs) = w ∷ works xs

-- What is at the front: 0, which is NULL, where there is nothing.
abbrev pub front : List ℕ → ℕ
front [] = 0
front (w ∷ ws) = w

abbrev pub rest : List ℕ → List ℕ
rest [] = []
rest (w ∷ ws) = ws

-- The memory and the queue that any sequence of operations on a new queue leaves, and the works that
-- a first in, first out list holds after the same operations. An allocation gives any address
-- that is not in use.
pub data Reach : List ℕ → Heap → Queue → Type 0 where
  start : Reach [] (λ a. none) init
  put :
      {ws : List ℕ} {h h' : Heap} {q q' : Queue} (a w : ℕ)
      → Reach ws h q
      → 0 < a
      → h a ≡ none
      → enqueue h q a w ≡ some (h', q')
      → Reach (ws ++ w ∷ []) h' q'
  take :
      {ws : List ℕ} {h h' : Heap} {q q' : Queue} (w : ℕ)
      → Reach ws h q
      → dequeue h q ≡ some (w, h', q')
      → Reach (rest ws) h' q'

works-snoc : (xs : Cells) (a w : ℕ) → works (xs ++ (a, w) ∷ []) ≡ works xs ++ w ∷ []
works-snoc [] a w = refl
works-snoc ((p, v) ∷ xs) a w = ap (v ∷◌) (works-snoc xs a w)

-- A dequeue of any queue returns the front of its works, and leaves the queue of the others.
pub dequeue_lem :
    (h : Heap) (q : Queue) (xs : Cells)
    → IsQueue h q xs
    → (h' : Heap) × (q' : Queue) × (ys : Cells) × (dequeue h q ≡ some (front (works xs), h', q'))
      × (works ys ≡ rest (works xs))
      × IsQueue h' q' ys
unfolding dequeue
dequeue_lem h q [] nil = (h, q, [], refl, refl, nil)
dequeue_lem h q ((p, w) ∷ xs) c =
    let (h', q', e, c', kept) = dequeue-cons h q p w xs c in (h', q', xs, e, refl, c')

-- The contents of a queue that operations reach.
contents :
    {ws : List ℕ} {h : Heap} {q : Queue}
    → Reach ws h q
    → (xs : Cells) × (works xs ≡ ws) × IsQueue h q xs
contents start = ([], refl, nil)
contents (put {h} {q} a w r pos free e) =
    let (xs, same, c) = contents r in
    let (h'', q'', e', c', kept) = enqueue-snoc h q a w xs c pos free in
    let made = some-injective _ _ (sym e' ∙ e) in
    (
      xs ++ (a, w) ∷ [],
      works-snoc xs a w ∙ ap (λ l. l ++ w ∷ []) same,
      subst (λ s. IsQueue s.0 s.1 (xs ++ (a, w) ∷ [])) made c',
    )
contents (take {h} {q} w r e) =
    let (xs, same, c) = contents r in
    let (h'', q'', ys, e', left, c') = dequeue_lem h q xs c in
    let made = some-injective _ _ (sym e' ∙ e) in
    (ys, left ∙ ap rest same, subst (λ s. IsQueue s.1 s.2 ys) made c')

-- After any sequence of operations on a new queue, where each allocation gives an address that is
-- not in use, neither operation follows a pointer to no item: a dequeue returns the work that a
-- first in, first out list has at its front, NULL where it is empty, and an enqueue at a further
-- such address succeeds.
pub dequeue-Reach :
    (ws : List ℕ) (h : Heap) (q : Queue) (a w : ℕ)
    → Reach ws h q
    → 0 < a
    → h a ≡ none
    → ((h' : Heap) × (q' : Queue) × (dequeue h q ≡ some (front ws, h', q')) × Reach (rest ws) h' q')
      × ((h' : Heap) × (q' : Queue) × (enqueue h q a w ≡ some (h', q'))
          × Reach (ws ++ w ∷ []) h' q')
dequeue-Reach ws h q a w r pos free =
    let (xs, same, c) = contents r in
    let (h', q', ys, e, left, c') = dequeue_lem h q xs c in
    let (g, k, e', d, kept) = enqueue-snoc h q a w xs c pos free in
    let taken : dequeue h q ≡ some (front ws, h', q') = e ∙ ap (λ l. some (front l, h', q')) same in
    ((h', q', taken, take (front ws) r taken), (g, k, e', put a w r pos free e'))
