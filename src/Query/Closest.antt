-- ===== src/Query/Closest.antt =====
-- The closest target of a query.
use mathlib.Core.Path.{subst}
use poseidon.Prelude.{
  ℕ, zero, suc, ◌+◌, ◌≤◌, ◌<◌, ◌≡◌, refl, sym, ◌⊎◌, inl, inr, false, List, [], ◌∷◌, arith, ltb,
  ◌==◌, ltb→lt, Bool-cases, length, get_or, get_elem?, take, drop,
}
use poseidon.Query.{Query, closest_loop, get_closest}

-- Every element is at least `v`.
abbrev pub AllFrom : ℕ → List ℕ → Type 0
AllFrom v [] = zero ≡ zero
AllFrom v (x ∷ xs) = (v ≤ x) × AllFrom v xs

-- The first `n` elements are above `v`.
abbrev pub FirstAbove : ℕ → ℕ → List ℕ → Type 0
FirstAbove v zero xs = zero ≡ zero
FirstAbove v (suc n) [] = zero ≡ zero
FirstAbove v (suc n) (x ∷ xs) = (v < x) × FirstAbove v n xs

-- `m` is the first index at which the least element stands.
abbrev pub IsFirstLeast : List ℕ → ℕ → Type 0
IsFirstLeast xs m = (m < length xs) × AllFrom (get_or xs m 0) xs × FirstAbove (get_or xs m 0) m xs

AllFrom-le : (v w : ℕ) (xs : List ℕ) → v ≤ w → AllFrom w xs → AllFrom v xs
AllFrom-le v w [] h k = refl
AllFrom-le v w (x ∷ xs) h (k, ks) = (omega arith, AllFrom-le v w xs h ks)

-- The loop keeps the index it has, or ends at the first least value of the rest.
closest_loop_lem :
    (latencies : List ℕ) (i closest_idx closest_latency : ℕ)
    → ((closest_loop latencies i closest_idx closest_latency ≡ closest_idx)
        × AllFrom closest_latency latencies)
      ⊎ ((k : ℕ) × (closest_loop latencies i closest_idx closest_latency ≡ i + k)
          × (get_or latencies k 0 < closest_latency)
          × IsFirstLeast latencies k)
unfolding closest_loop
closest_loop_lem [] i idx least = inl (refl, refl)
closest_loop_lem (l ∷ rest) i idx least = elim (Bool-cases (ltb l least)) [
  | inl closer ↦
      let less : l < least = ltb→lt l least closer in
      rw closer (elim (closest_loop_lem rest (suc i) i l) [
        | inl (e, all) ↦ inr (0, omega (arith, e), less, (omega arith, (omega arith, all), refl))
        | inr (k, e, lower, (bound, all, first)) ↦ inr (
          suc k,
          omega (arith, e),
          omega (arith, lower, less),
          (omega (arith, bound), (omega (arith, lower), all), (lower, first)),
        )
      ])
  | inr further ↦
      let more : least ≤ l = ground (arith, further) in
      rw further (elim (closest_loop_lem rest (suc i) idx least) [
        | inl (e, all) ↦ inl (e, (more, all))
        | inr (k, e, lower, (bound, all, first)) ↦ inr (
          suc k,
          omega (arith, e),
          lower,
          (
            omega (arith, bound),
            (omega (arith, lower, more), all),
            (omega (arith, lower, more), first),
          ),
        )
      ])
]

closest_loop-IsFirstLeast :
    (l : ℕ) (rest : List ℕ) → IsFirstLeast (l ∷ rest) (closest_loop rest 1 0 l)
closest_loop-IsFirstLeast l rest = elim (closest_loop_lem rest 1 0 l) [
  | inl (e, all) ↦ subst (IsFirstLeast (l ∷ rest)) (sym e) (omega arith, (omega arith, all), refl)
  | inr (k, e, lower, (bound, all, first)) ↦
      let next : closest_loop rest 1 0 l ≡ suc k = omega (arith, e) in
      subst (IsFirstLeast (l ∷ rest)) (sym next)
        (omega (arith, bound), (omega (arith, lower), all), (lower, first))
]

take_first :
    (n : ℕ) (xs : List ℕ) → 0 < n → n ≤ length xs → take n xs ≡ get_or xs 0 0 ∷ drop 1 (take n xs)
take_first zero xs h k = absurd (omega arith)
take_first (suc n) [] h k = absurd (omega arith)
take_first (suc n) (x ∷ xs) h k = refl

-- A query with targets, and a latency for each of them, gives as the closest the target at the
-- first index with the least latency.
pub get_closest_lem :
    (query : Query)
    → 0 < length query.targets
    → length query.targets ≤ length query.latencies
    → (m : ℕ) × (get_closest query ≡ get_elem? query.targets m)
      × IsFirstLeast (take (length query.targets) query.latencies) m
unfolding get_closest
get_closest_lem query some_left fits =
    let measured : List ℕ = take (length query.targets) query.latencies in
    let present : (length query.targets == 0) ≡ false = ground arith in
    (
      closest_loop (drop 1 measured) 1 0 (get_or query.latencies 0 0),
      rw present refl,
      subst
          (λ (xs : List ℕ).
            IsFirstLeast xs (closest_loop (drop 1 measured) 1 0 (get_or query.latencies 0 0)))
          (sym (take_first (length query.targets) query.latencies some_left fits))
          (closest_loop-IsFirstLeast (get_or query.latencies 0 0) (drop 1 measured)),
    )
