-- ===== src/Prelude/Entries.antt =====
-- Tables kept as arrays: a search for the first entry that passes a test, removal by moving the last
-- entry into the gap, and the number of entries that pass a test.
use poseidon.Prelude.{
  ℕ, zero, suc, ◌+◌, ◌-◌, ◌<◌, ◌≡◌, refl, ap, List, [], ◌∷◌, ◌++◌, map, ◌≤◌, Bool, true, false,
  Option, none, some, arith, if◌then◌else◌, length, length-set, length-take, get_or, get_or-set,
  set, take, ◌≤◌,
}

module _ {ℓ} {A : Type ℓ} where
  -- `for (i = 0; i < count; i++) if (test(entries[i])) return i;`
  unfoldable pub find : (A → Bool) → List A → Option ℕ
  find test [] = none
  find test (x ∷ xs) = elim (test x) [
    | true ↦ some 0
    | false ↦ elim (find test xs) [ none ↦ none | some i ↦ some (suc i) ]
  ]

  -- `entries[i] = entries[count - 1]; count--;`, where `d` stands for an entry out of range.
  unfoldable pub swap_remove : A → List A → ℕ → List A
  swap_remove d xs i = take (length xs - 1) (set xs i (get_or xs (length xs - 1) d))

  abbrev pub filter : (A → Bool) → List A → List A
  filter test [] = []
  filter test (x ∷ xs) = if test x then x ∷ filter test xs else filter test xs

  -- The number of entries that pass a test.
  abbrev pub count : (A → Bool) → List A → ℕ
  count test [] = 0
  count test (x ∷ xs) = (if test x then 1 else 0) + count test xs

module _ {ℓ} {A : Type ℓ} (f : A → ℕ) where
  -- The sum of a measure of the entries.
  abbrev pub sum_of : List A → ℕ
  sum_of [] = 0
  sum_of (x ∷ xs) = f x + sum_of xs

  pub sum_of-set :
      (xs : List A) (i : ℕ) (v d : A)
      → i < length xs
      → sum_of (set xs i v) + f (get_or xs i d) ≡ sum_of xs + f v
  sum_of-set [] i v d h = absurd (omega arith)
  sum_of-set (x ∷ xs) zero v d h = omega arith
  sum_of-set (x ∷ xs) (suc i) v d h = omega (arith, sum_of-set xs i v d (omega arith))

  pub sum_of-get : (xs : List A) (i : ℕ) (d : A) → i < length xs → f (get_or xs i d) ≤ sum_of xs
  sum_of-get [] i d h = absurd (omega arith)
  sum_of-get (x ∷ xs) zero d h = omega arith
  sum_of-get (x ∷ xs) (suc i) d h = omega (arith, sum_of-get xs i d (omega arith))

-- A change of the entries that raises no measure.
pub sum_of-map {ℓ} :
    {A : Type ℓ} (f f' : A → ℕ) (g : A → A) (xs : List A)
    → ((x : A) → f (g x) ≤ f' x)
    → sum_of f (map g xs) ≤ sum_of f' xs
sum_of-map f f' g [] h = omega arith
sum_of-map f f' g (x ∷ xs) h = omega (arith, h x, sum_of-map f f' g xs h)

module _ {ℓ} {A : Type ℓ} (test : A → Bool) where
  pub count-append : (xs ys : List A) → count test (xs ++ ys) ≡ count test xs + count test ys
  count-append [] ys = omega arith
  count-append (x ∷ xs) ys = omega (arith, count-append xs ys)

  pub length-filter : (xs : List A) → length (filter test xs) ≡ count test xs
  length-filter [] = refl
  length-filter (x ∷ xs) = ground (arith, length-filter xs)

  pub find-lt : (xs : List A) (i : ℕ) → find test xs ≡ some i → i < length xs
  unfolding find
  find-lt [] i h = absurd (ground arith)
  find-lt (x ∷ xs) zero h = omega arith
  find-lt (x ∷ xs) (suc i) h = ground (arith, find-lt xs i)

  -- What was found passes the test.
  pub find_passes :
      (xs : List A) (i : ℕ) (d : A) → find test xs ≡ some i → test (get_or xs i d) ≡ true
  unfolding find
  find_passes [] i d h = absurd (ground arith)
  find_passes (x ∷ xs) zero d h = ground arith
  find_passes (x ∷ xs) (suc i) d h = ground (arith, find_passes xs i d)

  -- Nothing is found exactly where nothing passes.
  pub count_of_absent : (xs : List A) → find test xs ≡ none → count test xs ≡ 0
  unfolding find
  count_of_absent [] h = refl
  count_of_absent (x ∷ xs) h = ground (arith, count_of_absent xs)

  pub count_of_present : (xs : List A) (i : ℕ) → find test xs ≡ some i → 0 < count test xs
  unfolding find
  count_of_present [] i h = absurd (ground arith)
  count_of_present (x ∷ xs) zero h = ground arith
  count_of_present (x ∷ xs) (suc i) h = ground (arith, count_of_present xs i)

  pub count_of_get :
      (xs : List A) (i : ℕ) (d : A)
      → i < length xs
      → test (get_or xs i d) ≡ true
      → 0 < count test xs
  count_of_get [] i d h e = absurd (omega arith)
  count_of_get (x ∷ xs) zero d h e = ground arith
  count_of_get (x ∷ xs) (suc i) d h e = ground (arith, count_of_get xs i d (omega arith) e)

  pub count-set :
      (xs : List A) (i : ℕ) (v d : A)
      → i < length xs
      → count test (set xs i v) + (if test (get_or xs i d) then 1 else 0)
        ≡ count test xs + (if test v then 1 else 0)
  count-set [] i v d h = absurd (omega arith)
  count-set (x ∷ xs) zero v d h = omega arith
  count-set (x ∷ xs) (suc i) v d h = omega (arith, count-set xs i v d (omega arith))

  count-take :
      (n : ℕ) (xs : List A) (d : A)
      → length xs ≡ suc n
      → count test (take n xs) + (if test (get_or xs n d) then 1 else 0) ≡ count test xs
  count-take n [] d h = absurd (omega arith)
  count-take zero (x ∷ []) d h = omega arith
  count-take zero (x ∷ y ∷ xs) d h = absurd (omega arith)
  count-take (suc n) (x ∷ xs) d h = omega (arith, count-take n xs d (omega arith))

  -- A removal takes away the entry at `i`, and no other.
  pub count-swap_remove :
      (xs : List A) (i : ℕ) (d : A)
      → i < length xs
      → count test (swap_remove d xs i) + (if test (get_or xs i d) then 1 else 0) ≡ count test xs
  unfolding swap_remove
  count-swap_remove xs i d h =
      let n : ℕ = length xs - 1 in
      let last : A = get_or xs n d in
      let kept : get_or (set xs i last) n d ≡ last = ground (arith, get_or-set xs i n last d) in
      omega (
        arith,
        count-set xs i last d h,
        count-take n (set xs i last) d (omega (arith, length-set xs i last)),
        ap {B = ℕ} (λ y. if test y then 1 else 0) kept,
      )

pub length-swap_remove {ℓ} :
    {A : Type ℓ} (d : A) (xs : List A) (i : ℕ) → length (swap_remove d xs i) ≡ length xs - 1
unfolding swap_remove
length-swap_remove d xs i = rw (length-take, length-set) (omega arith)
