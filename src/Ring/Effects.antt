-- ===== src/Ring/Effects.antt =====
-- What insertion, promotion and the search for the closest node do with the nodes of a ring set.
use poseidon.Prelude.{
  inl, inr, ap, List-cases, ℕ, zero, suc, ◌+◌, ◌<◌, ◌≡◌, List, [], ◌∷◌, ◌++◌, Bool, ◌&&◌, not,
  arith, ltb, leb, if◌then◌else◌, length, get_or, set, if_intro, ◌||◌, none, some, ◌⊎◌, refl,
}
use poseidon.Prelude.Entries.{count, count-append}
use poseidon.Ring.{
  find_closest, promote_secondary, ℤ, Node, max_rings, Ring, RingSet, empty, ring_at, get_ring,
  insert,
}
use poseidon.Ring.Keeps.{IsValid, get_ring-lt}

-- The number of nodes of a ring, and of all the rings, that pass a test.
abbrev pub count_ring : (Node → Bool) → Ring → ℕ
count_ring test r = count test r.primary + count test r.secondary

abbrev pub total : (Node → Bool) → List Ring → ℕ
total test [] = 0
total test (r ∷ rings) = count_ring test r + total test rings

module _ (test : Node → Bool) where
  total-set :
      (rings : List Ring) (i : ℕ) (r : Ring)
      → i < length rings
      → total test (set rings i r) + count_ring test (get_or rings i empty)
        ≡ total test rings + count_ring test r
  total-set [] i r h = absurd (omega arith)
  total-set (x ∷ rings) zero r h = omega arith
  total-set (x ∷ rings) (suc i) r h = omega (arith, total-set rings i r (omega arith))

  -- On a valid set, an insertion that succeeds adds the node once, and one that is refused adds
  -- nothing.
  pub total-insert :
      (floor_log : ℕ → ℕ → ℤ) (s : RingSet) (node : Node) (latency : ℕ)
      → IsValid s
      → total test (insert floor_log s node latency).1.rings
        ≡ total test s.rings
          + (if (insert floor_log s node latency).0 then (if test node then 1 else 0) else 0)
  unfolding insert
  total-insert floor_log s node latency valid =
      let i : ℕ = get_ring floor_log s latency in
      let ring : Ring = ring_at s i in
      let inside : i < length s.rings = omega (arith, get_ring-lt floor_log s latency, valid.ten) in
      let P : Bool × RingSet → Type 0 = λ r.
        total test r.1.rings
        ≡ total test s.rings + (if r.0 then (if test node then 1 else 0) else 0) in
      if_intro P (leb max_rings i) _ _ (λ _. omega arith)
        (λ _.
          if_intro P ring.frozen _ _ (λ _. omega arith)
            (λ _.
              if_intro P (ltb (length ring.primary) s.primary_size) _ _
                (λ _.
                  let new : Ring = record ring { primary = ring.primary ++ node ∷ [] } in
                  omega (
                    arith,
                    total-set s.rings i new inside,
                    count-append test ring.primary (node ∷ []),
                  ))
                (λ _.
                  if_intro P (ltb (length ring.secondary) s.secondary_size) _ _
                    (λ _.
                      let new : Ring = record ring { secondary = ring.secondary ++ node ∷ [] } in
                      omega (
                        arith,
                        total-set s.rings i new inside,
                        count-append test ring.secondary (node ∷ []),
                      ))
                    (λ _. omega arith))))

-- An insertion succeeds exactly where the ring of the latency is not frozen and one of its lists
-- has room.
pub insert-refuses :
    (floor_log : ℕ → ℕ → ℤ) (s : RingSet) (node : Node) (latency : ℕ)
    → (insert floor_log s node latency).0 ≡ (
        let ring = ring_at s (get_ring floor_log s latency) in
        not ring.frozen
        && (ltb (length ring.primary) s.primary_size
            || ltb (length ring.secondary) s.secondary_size))
unfolding insert
insert-refuses floor_log s node latency = ground (arith, get_ring-lt floor_log s latency)

-- The closest node is the first primary node of the first ring that has one; there is none exactly
-- where no ring has a primary node.
pub find_closest_lem :
    (rings : List Ring)
    → ((n : Node) × (i : ℕ) × (rest : List Node) × (find_closest rings ≡ some n)
        × ((get_or rings i empty).primary ≡ n ∷ rest)
        × ((j : ℕ) → j < i → (get_or rings j empty).primary ≡ []))
      ⊎ ((find_closest rings ≡ none) × ((j : ℕ) → (get_or rings j empty).primary ≡ []))
unfolding find_closest
find_closest_lem [] = inr (refl, λ j. refl)
find_closest_lem (r ∷ rings) = elim (List-cases r.primary) [
  | inr (n, rest, e) ↦ inl (n, 0, rest, rw e refl, e, λ j h. absurd (omega arith))
  | inl e ↦ elim (find_closest_lem rings) [
    | inl (n, i, rest, found, there, before) ↦ inl (
      n,
      suc i,
      rest,
      rw e found,
      there,
      λ j h.
          elim j as (λ j. j < suc i → (get_or (r ∷ rings) j empty).primary ≡ []) [
            | zero ↦ λ h. e
            | suc j ↦ λ h. before j (omega arith)
          ]
            h,
    )
    | inr (absent, all) ↦ inr (
      rw e absent,
      λ j. elim j as (λ j. (get_or (r ∷ rings) j empty).primary ≡ []) [ zero ↦ e | suc j ↦ all j ],
    )
  ]
]

-- On a valid set, a promotion moves nodes within the set: for every test, as many nodes pass it as
-- before.
pub total-promote_secondary :
    (test : Node → Bool) (s : RingSet) (i : ℕ)
    → IsValid s
    → total test (promote_secondary s i).1.rings ≡ total test s.rings
unfolding promote_secondary
total-promote_secondary test s i valid =
    let ring : Ring = ring_at s i in
    let P : Bool × RingSet → Type 0 = λ r. total test r.1.rings ≡ total test s.rings in
    if_intro P (leb max_rings i) _ _ (λ _. refl)
      (λ inside. elim (List-cases ring.secondary) [
        | inl e ↦ rw e refl
        | inr (n, rest, e) ↦ rw e (
            if_intro P (leb s.primary_size (length ring.primary)) _ _ (λ _. refl)
              (λ _.
                let new : Ring = record ring {
                  primary = ring.primary ++ n ∷ [];
                  secondary = rest;
                } in
                omega (
                  arith,
                  total-set test s.rings i new (ground (arith, valid.ten)),
                  count-append test ring.primary (n ∷ []),
                  ap (count test) e,
                )))
      ])
