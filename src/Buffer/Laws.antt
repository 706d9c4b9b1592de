-- ===== src/Buffer/Laws.antt =====
-- Slices, the operations by index, and the order of buffers.
use Prim.Native.Nat.{max}
use poseidon.Prelude.{
  ℕ, zero, suc, ◌+◌, ◌-◌, ◌≤◌, ◌<◌, ◌≡◌, ◌≢◌, ◌↔◌, ◌⊎◌, inl, inr, ◌∙◌, refl, sym, ap, List, [], ◌∷◌,
  ◌++◌, none, some, arith, ltb, ◌==◌, ==_iff, length, length-append, length-drop, length-take,
  get_or, take, drop, map, Ordering, Bool-cases, length-map,
}
use poseidon.Buffer.{concat, slice, combine, compare_loop, sign, compare}

take-append : (xs ys : List ℕ) → take (length xs) (xs ++ ys) ≡ xs
take-append [] ys = refl
take-append (x ∷ xs) ys = ap (λ r. x ∷ r) (take-append xs ys)

drop-append : (xs ys : List ℕ) → drop (length xs) (xs ++ ys) ≡ ys
drop-append [] ys = refl
drop-append (x ∷ xs) ys = drop-append xs ys

take_all : (xs : List ℕ) → take (length xs) xs ≡ xs
take_all [] = refl
take_all (x ∷ xs) = ap (λ r. x ∷ r) (take_all xs)

-- The two buffers are slices of their concatenation.
pub slice-concat :
    (buf1 buf2 : List ℕ)
    → (slice (concat buf1 buf2) 0 (length buf1) ≡ some buf1)
      × (slice (concat buf1 buf2) (length buf1) (length buf1 + length buf2) ≡ some buf2)
unfolding slice concat
slice-concat buf1 buf2 =
    let left : length buf1 - 0 ≡ length buf1 = omega arith in
    let right : length buf1 + length buf2 - length buf1 ≡ length buf2 = omega arith in
    (
      rw left (ground (arith, length-append buf1 buf2, take-append buf1 buf2)),
      rw (right, drop-append buf1 buf2) (ground (arith, length-append buf1 buf2, take_all buf2)),
    )

get_or-drop : (xs : List ℕ) (n i : ℕ) → get_or (drop n xs) i 0 ≡ get_or xs (n + i) 0
get_or-drop xs zero i = let e : i ≡ 0 + i = omega arith in ap (λ k. get_or xs k 0) e
get_or-drop [] (suc n) i = refl
get_or-drop (x ∷ xs) (suc n) i =
    let e : suc (n + i) ≡ suc n + i = omega arith in
    get_or-drop xs n i ∙ ap (λ k. get_or (x ∷ xs) k 0) e

get_or_of_take : (n : ℕ) (xs : List ℕ) (i : ℕ) → i < n → get_or (take n xs) i 0 ≡ get_or xs i 0
get_or_of_take zero xs i h = absurd (omega arith)
get_or_of_take (suc n) [] i h = refl
get_or_of_take (suc n) (x ∷ xs) zero h = refl
get_or_of_take (suc n) (x ∷ xs) (suc i) h = get_or_of_take n xs i (omega arith)

-- A slice exists exactly where its bounds are in order and inside the buffer; it has `end - start`
-- bytes, and they are the buffer's from `start` on.
pub slice_lem :
    (buf : List ℕ) (start end : ℕ)
    → ((slice buf start end ≡ none) × ((end < start) ⊎ (length buf < end)))
      ⊎ ((s : List ℕ) × (slice buf start end ≡ some s)
          × (start ≤ end)
          × (end ≤ length buf)
          × (length s ≡ end - start)
          × ((i : ℕ) → i < length s → get_or s i 0 ≡ get_or buf (start + i) 0))
unfolding slice
slice_lem buf start end = elim (Bool-cases (ltb end start)) [
  | inl h ↦ inl (ground (arith, h), inl (ground arith))
  | inr h ↦ elim (Bool-cases (ltb (length buf) end)) [
    | inl k ↦ inl (ground (arith, h, k), inr (ground arith))
    | inr k ↦ inr (
      take (end - start) (drop start buf),
      ground (arith, h, k),
      ground arith,
      ground arith,
      ground (arith, length-take (end - start) (drop start buf), length-drop start buf),
      λ i p.
          get_or_of_take (end - start) (drop start buf) i
            (omega (arith, length-take (end - start) (drop start buf)))
          ∙ get_or-drop buf start i,
    )
  ]
]

-- Byte `i` of a combination, where an absent byte counts as 0.
get_or-map :
    (op : ℕ → ℕ → ℕ) (xs : List ℕ) (i : ℕ)
    → op 0 0 ≡ 0
    → get_or (map (λ b. op b 0) xs) i 0 ≡ op (get_or xs i 0) 0
get_or-map op [] i h = sym h
get_or-map op (x ∷ xs) zero h = refl
get_or-map op (x ∷ xs) (suc i) h = get_or-map op xs i h

get_or-combine :
    (op : ℕ → ℕ → ℕ) (xs ys : List ℕ) (i : ℕ)
    → op 0 0 ≡ 0
    → ((b : ℕ) → op b 0 ≡ op 0 b)
    → get_or (combine op xs ys) i 0 ≡ op (get_or xs i 0) (get_or ys i 0)
unfolding combine
get_or-combine op (x ∷ xs) (y ∷ ys) zero h k = refl
get_or-combine op (x ∷ xs) (y ∷ ys) (suc i) h k = get_or-combine op xs ys i h k
get_or-combine op (x ∷ xs) [] i h k = get_or-map op (x ∷ xs) i h
get_or-combine op [] ys i h k = get_or-map op ys i h ∙ k (get_or ys i 0)

length-combine :
    (op : ℕ → ℕ → ℕ) (xs ys : List ℕ) → length (combine op xs ys) ≡ max (length xs) (length ys)
unfolding combine
length-combine op (x ∷ xs) (y ∷ ys) = omega (arith, length-combine op xs ys)
length-combine op (x ∷ xs) [] = omega (arith, length-map (λ b. op b 0) xs)
length-combine op [] ys = omega (arith, length-map (λ b. op b 0) ys)

-- What has been found so far matters only where no later bytes differ.
compare_loop_same : (xs : List ℕ) (a b : ℕ) → compare_loop xs xs a b ≡ (a, b)
unfolding compare_loop
compare_loop_same [] a b = refl
compare_loop_same (x ∷ xs) a b = ground (arith, compare_loop_same xs a b)

-- The pair that is compared at the end is the first one, and the bytes are the same, or its two
-- numbers differ.
compare_loop_differs :
    (xs ys : List ℕ) (a b : ℕ) → a ≢ b → (compare_loop xs ys a b).0 ≢ (compare_loop xs ys a b).1
unfolding compare_loop
compare_loop_differs [] ys a b h = h
compare_loop_differs (x ∷ xs) [] a b h = h
compare_loop_differs (x ∷ xs) (y ∷ ys) a b h =
    ground (arith, compare_loop_differs xs ys a b h, compare_loop_differs xs ys x y)

compare_loop_equal :
    (xs ys : List ℕ)
    → (n : ℕ) → length xs ≡ length ys
    → (compare_loop xs ys n n).0 ≡ (compare_loop xs ys n n).1
    → xs ≡ ys
unfolding compare_loop
compare_loop_equal [] [] n h e = refl
compare_loop_equal [] (y ∷ ys) n h e = absurd (omega arith)
compare_loop_equal (x ∷ xs) [] n h e = absurd (omega arith)
compare_loop_equal (x ∷ xs) (y ∷ ys) n h e =
    ground (arith, compare_loop_equal xs ys n (omega arith), compare_loop_differs xs ys x y)

sign-eq : (a b : ℕ) → sign (a, b) ≡ Ordering.eq → a ≡ b
sign-eq a b h = ground arith

-- Two buffers compare as equal exactly where they have the same bytes.
pub compare_eq_iff : (buf1 buf2 : List ℕ) → (compare buf1 buf2 ≡ Ordering.eq) ↔ (buf1 ≡ buf2)
unfolding compare
compare_eq_iff buf1 buf2 = (
  λ h. elim (Bool-cases (length buf1 == length buf2)) [
    | inl e ↦
        let same_size : length buf1 ≡ length buf2 = (==_iff _ _).0 e in
        compare_loop_equal buf1 buf2 (length buf2) same_size (
          sign-eq _ _ (ap (λ n. sign (compare_loop buf1 buf2 n (length buf2))) (sym same_size) ∙ h))
    | inr e ↦
        absurd (
          compare_loop_differs buf1 buf2 (length buf1) (length buf2) (ground arith) (sign-eq _ _ h))
  ],
  λ h. rw (h, compare_loop_same) (ground arith),
)

compare_loop-append :
    (xs ys : List ℕ) (x y a b : ℕ)
    → length xs ≡ length ys
    → x ≢ y
    → compare_loop (xs ++ x ∷ []) (ys ++ y ∷ []) a b ≡ (x, y)
unfolding compare_loop
compare_loop-append [] [] x y a b h k = ground arith
compare_loop-append [] (d ∷ ys) x y a b h k = absurd (omega arith)
compare_loop-append (c ∷ xs) [] x y a b h k = absurd (omega arith)
compare_loop-append (c ∷ xs) (d ∷ ys) x y a b h k = ground (
  arith,
  compare_loop-append xs ys x y a b (omega arith) k,
  compare_loop-append xs ys x y c d (omega arith) k,
)

-- Buffers of one length that differ at the last byte are ordered by it, whatever comes before.
pub compare-append :
    (xs ys : List ℕ) (x y : ℕ)
    → length xs ≡ length ys
    → x ≢ y
    → compare (xs ++ x ∷ []) (ys ++ y ∷ []) ≡ sign (x, y)
unfolding compare
compare-append xs ys x y h k = ap sign (compare_loop-append xs ys x y _ _ h k)
