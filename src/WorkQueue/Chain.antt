-- ===== src/WorkQueue/Chain.antt =====
-- Items that are linked both ways.
use poseidon.Prelude.{
  ℕ, ◌<◌, ◌≡◌, refl, ap, ◌∙◌, inl, inr, ◌⊎◌, Bool, true, false, ◌||◌, Option, none, some, List, [],
  ◌∷◌, ◌++◌, arith, ◌==◌, ==_iff, Bool-cases,
}
use poseidon.WorkQueue.{Item, Heap, Queue}

-- The addresses and works of items, from the first on.
abbrev pub Cells : Type 0
Cells = List (ℕ × ℕ)

abbrev pub has : ℕ → Cells → Bool
has a [] = false
has a ((p, w) ∷ xs) = a == p || has a xs

abbrev pub item_of : ℕ → ℕ → ℕ → Item
item_of work next previous = record { work = work; next = next; previous = previous }

-- From `p`, whose item points back to `previous`, the links lead through distinct items to `last`.
pub data Chain (h : Heap) : ℕ → ℕ → Cells → ℕ → Type 0 where
  nil : {previous : ℕ} → Chain h previous 0 [] previous
  cons :
      {previous p next w last : ℕ} {xs : Cells}
      → h p ≡ some (item_of w next previous)
      → 0 < p
      → has p xs ≡ false
      → Chain h p next xs last
      → Chain h previous p ((p, w) ∷ xs) last

-- The items of a queue.
abbrev pub IsQueue : Heap → Queue → Cells → Type 0
IsQueue h q xs = Chain h 0 q.first xs q.last

pub frame :
    {h g : Heap} {previous p last : ℕ} {xs : Cells}
    → Chain h previous p xs last
    → ((a : ℕ) → has a xs ≡ true → g a ≡ h a)
    → Chain g previous p xs last
frame nil same = nil
frame (cons {p} e pos out s) same =
    cons (same p (ground arith) ∙ e) pos out (frame s (λ a i. same a (ground (arith, i))))

-- A chain ends at one of its items, or where it began.
pub last_lem :
    {h : Heap} {previous p last : ℕ} {xs : Cells}
    → Chain h previous p xs last
    → (last ≡ previous) ⊎ (has last xs ≡ true)
last_lem nil = inl refl
last_lem (cons {p} {last} e pos out s) = elim (last_lem s) [
  | inl same ↦ inr (ground (arith, same))
  | inr inside ↦ inr (ground (arith, inside))
]

-- The end of a chain of some items is one of them.
pub last_inside :
    {h : Heap} {previous p last q w : ℕ} {xs : Cells}
    → Chain h previous p ((q, w) ∷ xs) last
    → has last ((q, w) ∷ xs) ≡ true
last_inside (cons {p} {last} e pos out s) = elim (last_lem s) [
  | inl same ↦ ground (arith, same)
  | inr inside ↦ ground (arith, inside)
]

pub apart : (p q : ℕ) (xs : Cells) → has p xs ≡ false → has q xs ≡ true → (q == p) ≡ false
apart p q xs out inside = elim (Bool-cases (q == p)) [
  | inr e ↦ e
  | inl e ↦
      let same : q ≡ p = (==_iff q p).0 e in
      absurd (ground (arith, out, inside, ap {B = Bool} (λ a. has a xs) same))
]

-- What an enqueue makes of the heap: a new item at `a`, and its link from the end.
pub record Linked (h g : Heap) (a w last : ℕ) : Type 0 where
  pub added : g a ≡ some (item_of w 0 last)
  pub linked : (i : Item) → h last ≡ some i → 0 < last → g last ≡ some (record i { next = a })
  pub kept : (b : ℕ) → (b == last) ≡ false → (b == a) ≡ false → g b ≡ h b

pub has_snoc : (p a w : ℕ) (xs : Cells) → has p (xs ++ (a, w) ∷ []) ≡ (has p xs || p == a)
has_snoc p a w [] = ground arith
has_snoc p a w ((q, v) ∷ xs) = ground (arith, has_snoc p a w xs)

pub snoc :
    {h g : Heap} {previous p last : ℕ} {xs : Cells} (a w : ℕ)
    → 0 < a
    → has a xs ≡ false
    → Linked h g a w last
    → Chain h previous p xs last
    → Chain g previous (elim xs [ [] ↦ a | _ ↦ p ]) (xs ++ (a, w) ∷ []) a
snoc a w pos out l nil = cons l.added pos refl nil
snoc a w pos out l (cons {p} e q_pos q_out nil) =
    cons (l.linked _ e q_pos) q_pos (ground (arith, out)) (snoc a w pos refl l nil)
snoc a w pos out l (cons {p} {last} e q_pos q_out (cons {p = r} {w = v} {xs} f r_pos r_out s)) =
    let ends : (last == p) ≡ false =
      apart p last ((r, v) ∷ xs) q_out (last_inside (cons f r_pos r_out s)) in
    cons (l.kept p (ground (arith, ends)) (ground (arith, out)) ∙ e) q_pos
      (ground (arith, q_out, out, has_snoc p a w xs))
      (snoc a w pos (ground (arith, out)) l (cons f r_pos r_out s))

-- The last of some items is an item.
pub last_item :
    {h : Heap} {previous p last q w : ℕ} {xs : Cells}
    → Chain h previous p ((q, w) ∷ xs) last
    → (0 < last) × (old : Item) × (h last ≡ some old)
last_item (cons e pos out nil) = (pos, _, e)
last_item (cons e pos out (cons f r_pos r_out s)) = last_item (cons f r_pos r_out s)

-- An address without an item is not in the chain.
pub fresh :
    {h : Heap} {previous p last : ℕ} {xs : Cells} (a : ℕ)
    → Chain h previous p xs last
    → h a ≡ none
    → has a xs ≡ false
fresh a nil free = refl
fresh {h} a (cons {p} e pos out s) free = elim (Bool-cases (a == p)) [
  | inl here ↦
      let same : a ≡ p = (==_iff a p).0 here in
      absurd (ground (arith, e, free, ap {B = Option Item} h same))
  | inr away ↦ ground (arith, away, fresh a s free)
]
