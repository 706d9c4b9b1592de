-- ===== src/Subtopic/Match.antt =====
-- `subtopic_matches` and `subtopic_table_should_deliver` against a relation between paths.
use poseidon.Prelude.{
  ℕ, zero, suc, ◌≤◌, ◌<◌, ◌≡◌, ◌↔◌, ◌⊎◌, inl, inr, refl, List, [], ◌∷◌, Bool, true, false, arith,
  ltb, ◌==◌, if◌then◌else◌, length, get_or, take, same_bytes, Option-cases,
}
use poseidon.Prelude.Entries.{find, find-lt, find_passes, count_of_absent, count_of_get}
use poseidon.Subtopic.{separator, trimmed_length, matches, Entry, Table, should_deliver, blank}

-- `message` is `subscription`, or goes on after it with a separator.
abbrev pub Covers : List ℕ → List ℕ → Type 0
Covers [] [] = separator ≡ separator
Covers [] (c ∷ message) = c ≡ separator
Covers (s ∷ subscription) [] = s ≡ suc s
Covers (s ∷ subscription) (c ∷ message) = (s ≡ c) × Covers subscription message

-- A path without the separators at its end.
pub trim : List ℕ → List ℕ
trim path = take (trimmed_length path (length path)) path

trimmed_length-le : (path : List ℕ) (n : ℕ) → trimmed_length path n ≤ n
unfolding trimmed_length
trimmed_length-le path zero = omega arith
trimmed_length-le path (suc n) = ground (arith, trimmed_length-le path n)

-- The three tests of `matches` after the trimming, for a prefix of `n` bytes.
tests-Covers :
    (message path : List ℕ) (n : ℕ)
    → n ≤ length path
    → ((if ltb (length message) n
          then false
          else if same_bytes (take n message) (take n path)
          then (if length message == n then true else get_or message n 0 == separator)
          else false)
        ≡ true)
      ↔ Covers (take n path) message
tests-Covers [] path zero h = ground arith
tests-Covers (c ∷ message) path zero h = ground arith
tests-Covers message [] (suc n) h = absurd (omega arith)
tests-Covers [] (s ∷ path) (suc n) h = ground arith
tests-Covers (c ∷ message) (s ∷ path) (suc n) h =
    ground (arith, tests-Covers message path n (omega arith))

-- A subscription receives a message exactly where it is empty, or its path without the separators
-- at the end is the message's path or a part of it that ends before a separator.
pub matches_iff :
    (message subscription : List ℕ)
    → (matches message subscription ≡ true)
      ↔ ((subscription ≡ []) ⊎ Covers (trim subscription) message)
unfolding matches trim
matches_iff message [] = (λ _. inl refl, λ _. refl)
matches_iff message (s ∷ rest) =
    let path : List ℕ = s ∷ rest in
    let n : ℕ = trimmed_length path (length path) in
    ground (arith, tests-Covers message path n (trimmed_length-le path (length path)))

-- A message is delivered exactly where an entry of the table matches it.
pub should_deliver_iff :
    (table : Table) (message : List ℕ)
    → (should_deliver table message ≡ true)
      ↔ ((i : ℕ) × (i < length table) × (matches message (get_or table i blank).path ≡ true))
unfolding should_deliver
should_deliver_iff table message =
    let matching : Entry → Bool = λ e. matches message e.path in
    elim (Option-cases (find matching table)) [
      | inl absent ↦ (
        λ h. absurd (ground (arith, h, absent)),
        λ (i, p, q). absurd (
            omega (
              arith,
              count_of_absent matching table absent,
              count_of_get matching table i blank p q,
            )),
      )
      | inr (i, present) ↦ (
        λ _. (i, find-lt matching table i present, find_passes matching table i blank present),
        λ _. ground (arith, present),
      )
    ]
