-- ===== src/Subtopic/Table.antt =====
-- The table of subscriptions: its invariant, and what each operation does to the set of paths.
use poseidon.Prelude.{
  ℕ, zero, suc, ◌+◌, ◌-◌, ◌≤◌, ◌<◌, ◌≡◌, inl, inr, refl, ap, List, [], ◌∷◌, Bool, true, false, ◌||◌,
  arith, ltb, if◌then◌else◌, length, length-append, length-set, get_or, set, take, same_bytes,
  same_bytes_iff, Bool-cases, Option-cases,
}
use poseidon.Prelude.Entries.{
  find, find-lt, find_passes, count_of_absent, count_of_present, count-append, count-set,
  count-swap_remove, length-swap_remove, count,
}
use poseidon.Subtopic.{
  max_subs, path_size, Table, is_at, blank, subscribe, unsubscribe, is_subscribed,
}

-- No path stands twice, and the table and its paths fit their arrays.
pub record IsValid (table : Table) : Type 0 where
  pub unique : (path : List ℕ) → count (is_at path) table ≤ 1
  pub bounded : length table ≤ max_subs

pub is_subscribed-count :
    (table : Table) (path : List ℕ) → is_subscribed table path ≡ ltb 0 (count (is_at path) table)
unfolding is_subscribed
is_subscribed-count table path = elim (Option-cases (find (is_at path) table)) [
  | inl absent ↦ ground (arith, absent, count_of_absent (is_at path) table absent)
  | inr (i, present) ↦ ground (arith, present, count_of_present (is_at path) table i present)
]

pub take_all : (n : ℕ) (path : List ℕ) → length path ≤ n → take n path ≡ path
take_all zero [] h = refl
take_all zero (c ∷ path) h = absurd (omega arith)
take_all (suc n) [] h = refl
take_all (suc n) (c ∷ path) h = ap (λ p. c ∷ p) (take_all n path (omega arith))

-- The entry with the new time to live is at the path of the one it replaces.
count_is_at-set :
    (table : Table) (i : ℕ) (ttl : ℕ) (q : List ℕ)
    → i < length table
    → count (is_at q) (set table i (record { path = (get_or table i blank).path; ttl = ttl }))
      ≡ count (is_at q) table
count_is_at-set table i ttl q h = omega (
  arith,
  count-set (is_at q) table i (record { path = (get_or table i blank).path; ttl = ttl }) blank h,
)

-- A subscription to a path that fits adds that path, where it was not there, and nothing else.
pub count-subscribe :
    (table : Table) (path : List ℕ) (ttl : ℕ) (q : List ℕ)
    → length path < path_size
    → (subscribe table path ttl).0 ≡ true
    → count (is_at q) (subscribe table path ttl).1
      ≡ count (is_at q) table
        + (if ltb 0 (count (is_at path) table) then 0 else if same_bytes path q then 1 else 0)
unfolding subscribe
count-subscribe table path ttl q fits ok = elim (Option-cases (find (is_at path) table)) [
  | inl absent ↦ ground (
    arith,
    absent,
    count_of_absent (is_at path) table absent,
    take_all (path_size - 1) path (omega arith),
    count-append (is_at q) table (record { path = take (path_size - 1) path; ttl = ttl } ∷ []),
  )
  | inr (i, present) ↦ ground (
    arith,
    present,
    count_of_present (is_at path) table i present,
    count_is_at-set table i ttl q (find-lt (is_at path) table i present),
  )
]

length-subscribe :
    (table : Table) (path : List ℕ) (ttl : ℕ)
    → length table ≤ max_subs
    → length (subscribe table path ttl).1 ≤ max_subs
unfolding subscribe
length-subscribe table path ttl h = elim (Option-cases (find (is_at path) table)) [
  | inl absent ↦ ground (
    arith,
    absent,
    length-append table (record { path = take (path_size - 1) path; ttl = ttl } ∷ []),
  )
  | inr (i, present) ↦ ground (
    arith,
    present,
    length-set table i (record { path = (get_or table i blank).path; ttl = ttl }),
  )
]

-- A refused subscription changes nothing.
pub subscribe_refused :
    (table : Table) (path : List ℕ) (ttl : ℕ)
    → (subscribe table path ttl).0 ≡ false
    → (subscribe table path ttl).1 ≡ table
unfolding subscribe
subscribe_refused table path ttl refused = elim (Option-cases (find (is_at path) table)) [
  | inl absent ↦ ground (arith, absent)
  | inr (i, present) ↦ ground (arith, present)
]

-- A subscription to a path of at most 511 bytes keeps a table valid: no path stands twice, and
-- there are at most 64 entries.
pub subscribe-IsValid :
    (table : Table) (path : List ℕ) (ttl : ℕ)
    → length path < path_size
    → IsValid table
    → IsValid (subscribe table path ttl).1
subscribe-IsValid table path ttl fits valid = record {
  unique = λ q. elim (Bool-cases (subscribe table path ttl).0) [
    | inl ok ↦ ground (
      arith,
      count-subscribe table path ttl q fits ok,
      valid.unique q,
      valid.unique path,
      same_bytes_iff path q,
      λ (e : path ≡ q). ap {B = ℕ} (λ p. count (is_at p) table) e,
    )
    | inr refused ↦ rw (subscribe_refused table path ttl refused) (valid.unique q)
  ];
  bounded = length-subscribe table path ttl valid.bounded;
}

-- After a subscription that was accepted, to a path of at most 511 bytes, that path is subscribed,
-- and every other path is subscribed where it was before.
pub is_subscribed-subscribe :
    (table : Table) (path : List ℕ) (ttl : ℕ) (q : List ℕ)
    → length path < path_size
    → (subscribe table path ttl).0 ≡ true
    → is_subscribed (subscribe table path ttl).1 q ≡ (is_subscribed table q || same_bytes path q)
is_subscribed-subscribe table path ttl q fits ok =
    rw (is_subscribed-count, is_subscribed-count)
      (ground (
        arith,
        count-subscribe table path ttl q fits ok,
        same_bytes_iff path q,
        λ (e : path ≡ q). ap {B = ℕ} (λ p. count (is_at p) table) e,
      ))

pub count-unsubscribe :
    (table : Table) (path q : List ℕ)
    → count (is_at q) (unsubscribe table path).1
      ≡ count (is_at q) table
        - (if ltb 0 (count (is_at path) table) then (if same_bytes path q then 1 else 0) else 0)
unfolding unsubscribe
count-unsubscribe table path q = elim (Option-cases (find (is_at path) table)) [
  | inl absent ↦ ground (arith, absent, count_of_absent (is_at path) table absent)
  | inr (i, present) ↦
      let there : (get_or table i blank).path ≡ path =
        (same_bytes_iff _ path).0 (find_passes (is_at path) table i blank present) in
      ground (
        arith,
        present,
        count_of_present (is_at path) table i present,
        count-swap_remove (is_at q) table i blank (find-lt (is_at path) table i present),
        ap {B = Bool} (λ p. same_bytes p q) there,
      )
]

length-unsubscribe :
    (table : Table) (path : List ℕ) → length (unsubscribe table path).1 ≤ length table
unfolding unsubscribe
length-unsubscribe table path = elim (Option-cases (find (is_at path) table)) [
  | inl absent ↦ ground (arith, absent)
  | inr (i, present) ↦ ground (arith, present, length-swap_remove blank table i)
]

-- An unsubscription keeps the table valid.
pub unsubscribe-IsValid :
    (table : Table) (path : List ℕ) → IsValid table → IsValid (unsubscribe table path).1
unsubscribe-IsValid table path valid = record {
  unique = λ q. omega (arith, count-unsubscribe table path q, valid.unique q);
  bounded = omega (arith, length-unsubscribe table path, valid.bounded);
}

pub unsubscribe-eq-is_subscribed :
    (table : Table) (path : List ℕ) → (unsubscribe table path).0 ≡ is_subscribed table path
unfolding unsubscribe is_subscribed
unsubscribe-eq-is_subscribed table path = elim (Option-cases (find (is_at path) table)) [
  | inl absent ↦ ground (arith, absent)
  | inr (i, present) ↦ ground (arith, present)
]

-- An unsubscription from a valid table succeeds exactly where the path was subscribed; the path is
-- not subscribed afterwards, and every other path is where it was before.
pub is_subscribed-unsubscribe :
    (table : Table) (path q : List ℕ)
    → IsValid table
    → ((unsubscribe table path).0 ≡ is_subscribed table path)
      × (is_subscribed (unsubscribe table path).1 q
          ≡ (if same_bytes path q then false else is_subscribed table q))
is_subscribed-unsubscribe table path q valid = (
  unsubscribe-eq-is_subscribed table path,
  rw (is_subscribed-count, is_subscribed-count)
      (ground (
        arith,
        count-unsubscribe table path q,
        valid.unique q,
        same_bytes_iff path q,
        λ (e : path ≡ q). ap {B = ℕ} (λ p. count (is_at p) table) e,
      )),
)
