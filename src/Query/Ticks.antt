-- ===== src/Query/Ticks.antt =====
-- A tick of the table of queries, by what its clock reads.
use poseidon.Prelude.{
  ℕ, zero, suc, ◌+◌, ◌≤◌, ◌<◌, ◌≡◌, refl, ap, ◌↔◌, inl, inr, false, not, none, some, List, [], ◌∷◌,
  arith, ltb, ◌==◌, if◌then◌else◌, Bool-cases, length,
}
use poseidon.Prelude.Entries.{filter, count, length-filter}
use poseidon.Query.{Query, QueryTable, is_expired, count_expired, partition, tick}

module _ (clock : ℕ → ℕ) (n : ℕ) where
  -- No query expires between two of the first `n` readings.
  abbrev pub Stable : List Query → Type 0
  Stable [] = zero ≡ zero
  Stable (query ∷ queries) =
      ((i : ℕ) → i < n → is_expired (clock i) query ≡ is_expired (clock 0) query) × Stable queries

  count_expired-Stable :
      (i : ℕ) (queries : List Query)
      → i + length queries ≤ n
      → Stable queries
      → count_expired clock i queries ≡ count (is_expired (clock 0)) queries
  unfolding count_expired
  count_expired-Stable i [] k h = refl
  count_expired-Stable i (query ∷ queries) k (h, hs) =
      ground (arith, h i (omega arith), count_expired-Stable (suc i) queries (omega arith) hs)

  partition-Stable :
      (i : ℕ) (queries : List Query)
      → i + length queries ≤ n
      → Stable queries
      → partition clock i queries ≡ (
        filter (is_expired (clock 0)) queries,
        filter (λ q. not (is_expired (clock 0) q)) queries,
      )
  unfolding partition
  partition-Stable i [] k h = refl
  partition-Stable i (query ∷ queries) k (h, hs) =
      rw (h i (omega arith), partition-Stable (suc i) queries (omega arith) hs) (ground arith)

  filter_absent :
      (queries : List Query)
      → count (is_expired (clock 0)) queries ≡ 0
      → (filter (is_expired (clock 0)) queries ≡ [])
        × (filter (λ q. not (is_expired (clock 0) q)) queries ≡ queries)
  filter_absent [] h = (refl, refl)
  filter_absent (query ∷ queries) h = ground (arith, h, filter_absent queries)

  -- Where no query of the table expires between two of the readings of the clock that a tick
  -- makes, a tick gives the expired queries and keeps the others, both in their order.
  pub tick_lem :
      (table : QueryTable)
      → length table.queries + length table.queries ≤ n
      → Stable table.queries
      → tick clock table
        ≡ some (
          filter (is_expired (clock 0)) table.queries,
          record table { queries = filter (λ q. not (is_expired (clock 0) q)) table.queries },
        )
  unfolding tick
  tick_lem table k h =
      let counted : count_expired clock 0 table.queries
          ≡ count (is_expired (clock 0)) table.queries =
        count_expired-Stable 0 table.queries (omega arith) h in
      elim (Bool-cases (count (is_expired (clock 0)) table.queries == 0)) [
        | inl nothing ↦
            let (expired, kept) = filter_absent table.queries (ground arith) in
            rw (counted, nothing, expired, kept) refl
        | inr something ↦
            let fits : ltb (count (is_expired (clock 0)) table.queries)
                  (length (filter (is_expired (clock 0)) table.queries))
                ≡ false =
              ground (arith, length-filter (is_expired (clock 0)) table.queries) in
            rw (counted, something, partition-Stable (length table.queries) table.queries k h, fits)
              refl
      ]

-- A clock with one reading before the reading `n` and another one from there on.
abbrev pub two_readings : ℕ → ℕ → ℕ → ℕ → ℕ
two_readings early late n i = if ltb i n then early else late

count_expired-early :
    (early late n i : ℕ) (queries : List Query)
    → i + length queries ≤ n
    → count_expired (two_readings early late n) i queries ≡ count (is_expired early) queries
unfolding count_expired
count_expired-early early late n i [] h = refl
count_expired-early early late n i (query ∷ queries) h =
    let reading : two_readings early late n i ≡ early = ground arith in
    ground (
      arith,
      ap (λ (t : ℕ). is_expired t query) reading,
      count_expired-early early late n (suc i) queries (omega arith),
    )

length-partition-late :
    (early late n i : ℕ) (queries : List Query)
    → n ≤ i
    → length (partition (two_readings early late n) i queries).0 ≡ count (is_expired late) queries
unfolding partition
length-partition-late early late n i [] h = refl
length-partition-late early late n i (query ∷ queries) h =
    let reading : two_readings early late n i ≡ late = ground arith in
    ground (
      arith,
      ap (λ (t : ℕ). is_expired t query) reading,
      length-partition-late early late n (suc i) queries (omega arith),
    )

-- A tick whose first loop reads one time and whose second loop reads another writes past the end
-- of its array exactly where some query has expired by the first time, and more queries by the
-- second.
pub tick_overflows :
    (table : QueryTable) (early late : ℕ)
    → (tick (two_readings early late (length table.queries)) table ≡ none) ↔ (
        (0 < count (is_expired early) table.queries)
        × (count (is_expired early) table.queries < count (is_expired late) table.queries))
unfolding tick
tick_overflows table early late = ground (
  arith,
  count_expired-early early late (length table.queries) 0 table.queries (omega arith),
  length-partition-late early late (length table.queries) (length table.queries) table.queries
      (omega arith),
)
