-- ===== src/Query/Laws.antt =====
-- The table of queries: insertion, removal, lookup and ticks.
use poseidon.Prelude.{
  ℕ, zero, suc, ◌^◌, ◌≤◌, ◌<◌, ◌≡◌, refl, sym, ap, ◌∙◌, ◌↔◌, inl, inr, false, Option, none, some,
  List, [], ◌∷◌, ◌++◌, arith, ◌==◌, if◌then◌else◌, Bool-cases, Option-cases, ◌>>=◌, length,
  get_elem?, length-append,
}
use poseidon.Prelude.Entries.{find}
use poseidon.Query.{Query, QueryTable, insert, remove, lookup, has_id, remove_at}

-- The first query with an identifier.
abbrev first : ℕ → List Query → Option Query
first id [] = none
first id (query ∷ queries) = if has_id id query then some query else first id queries

-- The queries without the first one with an identifier.
abbrev without : ℕ → List Query → List Query
without id [] = []
without id (query ∷ queries) = if has_id id query then queries else query ∷ without id queries

find-first :
    (id : ℕ) (queries : List Query)
    → (find (has_id id) queries >>= λ i. get_elem? queries i) ≡ first id queries
unfolding find
find-first id [] = refl
find-first id (query ∷ queries) = elim (Bool-cases (has_id id query)) [
  | inl e ↦ ground (arith, e)
  | inr e ↦ elim (Option-cases (find (has_id id) queries)) [
    | inl f ↦ ground (arith, e, f, find-first id queries)
    | inr (i, f) ↦ ground (arith, e, f, find-first id queries)
  ]
]

lookup-eq-first : (table : QueryTable) (id : ℕ) → lookup table id ≡ first id table.queries
unfolding lookup
lookup-eq-first table id = find-first id table.queries

find-without :
    (id : ℕ) (queries : List Query) (i : ℕ)
    → find (has_id id) queries ≡ some i
    → remove_at queries i ≡ without id queries
unfolding find
find-without id [] i h = absurd (ground arith)
find-without id (query ∷ queries) zero h = ground (arith, h)
find-without id (query ∷ queries) (suc i) h = ground (arith, h, find-without id queries i)

without-absent :
    (id : ℕ) (queries : List Query)
    → find (has_id id) queries ≡ none
    → (without id queries ≡ queries) × (first id queries ≡ none)
unfolding find
without-absent id [] h = (refl, refl)
without-absent id (query ∷ queries) h = ground (arith, h, without-absent id queries)

remove_queries :
    (table : QueryTable) (id : ℕ) → (remove table id).1.queries ≡ without id table.queries
unfolding remove
remove_queries table id = elim (Option-cases (find (has_id id) table.queries)) [
  | inl e ↦ ground (arith, e, (without-absent id table.queries e).0)
  | inr (i, e) ↦ ground (arith, e, find-without id table.queries i e)
]

first-without :
    (id other : ℕ) (queries : List Query)
    → (id == other) ≡ false
    → first other (without id queries) ≡ first other queries
first-without id other [] h = refl
first-without id other (query ∷ queries) h = ground (arith, h, first-without id other queries)

first-append :
    (id : ℕ) (queries : List Query) (query : Query)
    → first id (queries ++ query ∷ []) ≡ (elim (first id queries) [
      | none ↦ if has_id id query then some query else none
      | some found ↦ some found
    ])
first-append id [] query = ground arith
first-append id (x ∷ queries) query = ground (arith, first-append id queries query)

-- A query that is inserted is found under its identifier where no query had this one before.
pub lookup-insert :
    (table : QueryTable) (query : Query) (id : ℕ)
    → lookup (insert table query) id ≡ elim (lookup table id) [
      | none ↦ if has_id id query then some query else none
      | some found ↦ some found
    ]
unfolding insert
lookup-insert table query id =
    rw (lookup-eq-first, lookup-eq-first) (first-append id table.queries query)

first_missing :
    (id : ℕ) (queries : List Query) → (find (has_id id) queries ≡ none) ↔ (first id queries ≡ none)
unfolding find
first_missing id [] = (λ _. refl, λ _. refl)
first_missing id (query ∷ queries) = ground (arith, first_missing id queries)

remove_refused :
    (table : QueryTable) (id : ℕ) → ((remove table id).0 ≡ false) ↔ (lookup table id ≡ none)
unfolding remove
remove_refused table id =
    rw (lookup-eq-first) (elim (Option-cases (find (has_id id) table.queries)) [
      | inl e ↦ ground (arith, e, first_missing id table.queries)
      | inr (i, e) ↦ ground (arith, e, first_missing id table.queries)
    ])

-- A removal from the table of queries is refused exactly where the lookup finds nothing, and it
-- changes the lookup of no other identifier.
pub lookup-remove :
    (table : QueryTable) (id other : ℕ)
    → (((remove table id).0 ≡ false) ↔ (lookup table id ≡ none))
      × ((id == other) ≡ false → lookup (remove table id).1 other ≡ lookup table other)
lookup-remove table id other = (
  remove_refused table id,
  λ h.
      lookup-eq-first (remove table id).1 other
      ∙ ap (first other) (remove_queries table id)
      ∙ first-without id other table.queries h
      ∙ sym (lookup-eq-first table other),
)

-- The table fits its array.
pub record IsValid (table : QueryTable) : Type 0 where
  pub positive : 0 < table.capacity
  pub bounded : length table.queries ≤ table.capacity

pub insert-IsValid :
    (table : QueryTable) (query : Query)
    → IsValid table
    → table.capacity < 2 ^ 63
    → IsValid (insert table query)
unfolding insert
insert-IsValid table query valid small = record {
  positive = ground (arith, valid);
  bounded = ground (arith, valid, length-append table.queries (query ∷ []));
}
