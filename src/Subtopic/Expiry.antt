-- ===== src/Subtopic/Expiry.antt =====
-- The time to live of subscriptions, over runs of ticks.
use poseidon.Prelude.{
  ℕ, zero, suc, ◌-◌, ◌≤◌, ◌<◌, ◌≡◌, inl, inr, ◌∙◌, refl, List, [], ◌∷◌, true, ◌&&◌, arith, ltb,
  if◌then◌else◌, length, get_or, take, same_bytes_refl, Option-cases,
}
use poseidon.Prelude.Entries.{
  find, find-lt, find_passes, count_of_absent, count_of_get, count-append, count-set, count,
}
use poseidon.Subtopic.{path_size, Entry, Table, is_at, blank, subscribe, is_subscribed, tick}
use poseidon.Subtopic.Table.{IsValid, is_subscribed-count, take_all}

-- The number of entries at a path that have more than `n` ticks to live.
abbrev pub lasting : ℕ → List ℕ → Table → ℕ
lasting n path table = count (λ e. is_at path e && ltb n e.ttl) table

abbrev pub ticks : ℕ → Table → Table
ticks zero table = table
ticks (suc n) table = ticks n (tick table)

lasting-tick :
    (n : ℕ) (path : List ℕ) (table : Table)
    → lasting n path (tick table) ≡ lasting (suc n) path table
unfolding tick
lasting-tick n path [] = refl
lasting-tick n path (e ∷ table) = ground (arith, lasting-tick n path table)

-- An entry that a tick keeps has some time to live.
pub count-tick :
    (path : List ℕ) (table : Table) → count (is_at path) (tick table) ≡ lasting 1 path table
unfolding tick
count-tick path [] = refl
count-tick path (e ∷ table) = ground (arith, count-tick path table)

count-ticks :
    (n : ℕ) (path : List ℕ) (table : Table)
    → count (is_at path) (ticks (suc n) table) ≡ lasting (suc n) path table
count-ticks zero path table = count-tick path table
count-ticks (suc n) path table = count-ticks n path (tick table) ∙ lasting-tick (suc n) path table

length-tick : (table : Table) → length (tick table) ≤ length table
unfolding tick
length-tick [] = omega arith
length-tick (e ∷ table) = ground (arith, length-tick table)

pub lasting-le :
    (n : ℕ) (path : List ℕ) (table : Table) → lasting n path table ≤ count (is_at path) table
lasting-le n path [] = omega arith
lasting-le n path (e ∷ table) = ground (arith, lasting-le n path table)

-- A tick keeps the table valid.
pub tick-IsValid : (table : Table) → IsValid table → IsValid (tick table)
tick-IsValid table valid = record {
  unique = λ q. omega (arith, count-tick q table, lasting-le 1 q table, valid.unique q);
  bounded = omega (arith, length-tick table, valid.bounded);
}

-- The one entry at a path decides.
lasting_unique :
    (n : ℕ) (path : List ℕ) (table : Table) (i : ℕ)
    → i < length table
    → is_at path (get_or table i blank) ≡ true
    → count (is_at path) table ≤ 1
    → lasting n path table ≡ (if ltb n (get_or table i blank).ttl then 1 else 0)
lasting_unique n path [] i h e u = absurd (omega arith)
lasting_unique n path (x ∷ table) zero h e u = ground (arith, lasting-le n path table)
lasting_unique n path (x ∷ table) (suc i) h e u = ground (
  arith,
  lasting_unique n path table i (omega arith) e,
  lasting-le n path table,
  count_of_get (is_at path) table i blank (omega arith) e,
)

lasting-subscribe :
    (table : Table) (path : List ℕ) (ttl n : ℕ)
    → length path < path_size
    → IsValid table
    → (subscribe table path ttl).0 ≡ true
    → lasting n path (subscribe table path ttl).1 ≡ (if ltb n ttl then 1 else 0)
unfolding subscribe
lasting-subscribe table path ttl n fits valid ok = elim (Option-cases (find (is_at path) table)) [
  | inl absent ↦ ground (
    arith,
    absent,
    count_of_absent (is_at path) table absent,
    lasting-le n path table,
    take_all (path_size - 1) path (omega arith),
    same_bytes_refl path,
    count-append (λ e. is_at path e && ltb n e.ttl) table
        (record { path = take (path_size - 1) path; ttl = ttl } ∷ []),
  )
  | inr (i, present) ↦
      let old : Entry = get_or table i blank in
      let there : is_at path old ≡ true = find_passes (is_at path) table i blank present in
      let at : i < length table = find-lt (is_at path) table i present in
      ground (
        arith,
        present,
        there,
        lasting_unique n path table i at there (valid.unique path),
        count-set (λ e. is_at path e && ltb n e.ttl) table i (record { path = old.path; ttl = ttl })
            blank at,
      )
]

-- A subscription that is accepted, to a path of at most 511 bytes in a valid table, lasts, after
-- at least one tick, until as many ticks have passed as its time to live.
pub is_subscribed-ticks :
    (table : Table) (path : List ℕ) (ttl n : ℕ)
    → length path < path_size
    → IsValid table
    → (subscribe table path ttl).0 ≡ true
    → is_subscribed (ticks (suc n) (subscribe table path ttl).1) path ≡ ltb (suc n) ttl
is_subscribed-ticks table path ttl n fits valid ok = rw (is_subscribed-count) (
    ground (
      arith,
      count-ticks n path (subscribe table path ttl).1,
      lasting-subscribe table path ttl (suc n) fits valid ok,
    ))
