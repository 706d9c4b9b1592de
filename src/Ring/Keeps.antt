-- ===== src/Ring/Keeps.antt =====
-- The invariant of a ring set: ten rings, each list within its size.
use poseidon.Prelude.{
  List-cases, ℕ, suc, ◌≤◌, ◌<◌, ◌≡◌, ◌∙◌, ap, List, [], ◌∷◌, Bool, some, arith, ltb, leb, ◌==◌,
  length, length-append, length-replicate, length-set, get_or-set, get_or-replicate, if_intro,
  Bool-cases, Option-cases, inl, inr,
}
use poseidon.Ring.{
  ℤ, pos, negsuc, Node, max_rings, Ring, RingSet, empty, create, ring_at, with_ring, clamp,
  ring_of_base, identity_match, get_ring, insert, splice, erase_from, erase_ring, promote_secondary,
}

-- A ring's lists are within the sizes of its set.
pub record Fits (primary_size secondary_size : ℕ) (r : Ring) : Type 0 where
  pub primary_fits : length r.primary ≤ primary_size
  pub secondary_fits : length r.secondary ≤ secondary_size

pub record IsValid (s : RingSet) : Type 0 where
  pub ten : length s.rings ≡ max_rings
  pub fits : (i : ℕ) → Fits s.primary_size s.secondary_size (ring_at s i)

-- A new set is valid.
pub create-IsValid :
    (primary_size secondary_size : ℕ) (base : ℤ) → IsValid (create primary_size secondary_size base)
unfolding create
create-IsValid p q base = record {
  ten = length-replicate max_rings empty;
  fits = λ i.
      let e = get_or-replicate max_rings empty i in
      record {
        primary_fits = omega (arith, ap (λ (r : Ring). length r.primary) e);
        secondary_fits = omega (arith, ap (λ (r : Ring). length r.secondary) e);
      };
}

with_ring-IsValid :
    (s : RingSet) (i : ℕ) (r : Ring)
    → IsValid s
    → Fits s.primary_size s.secondary_size r
    → IsValid (with_ring s i r)
with_ring-IsValid s i r valid h = record {
  ten = length-set s.rings i r ∙ valid.ten;
  fits = λ j. rw (get_or-set s.rings i j r empty) (
      if_intro (Fits s.primary_size s.secondary_size) (i == j) _ _
        (λ _.
          if_intro (Fits s.primary_size s.secondary_size) (ltb i (length s.rings)) _ _ (λ _. h)
            (λ _. record { primary_fits = omega arith; secondary_fits = omega arith }))
        (λ _. valid.fits j));
}

clamp-lt : (n : ℤ) → clamp n < max_rings
clamp-lt (pos n) = ground arith
clamp-lt (negsuc n) = omega arith

ring_of_base-lt :
    (floor_log : ℕ → ℕ → ℤ) (base : ℤ) (latency : ℕ)
    → ring_of_base floor_log base latency < max_rings
ring_of_base-lt floor_log (pos b) latency =
    if_intro (λ n. n < max_rings) (b == 0) _ _ (λ _. omega arith)
      (λ _. clamp-lt (floor_log latency b))
ring_of_base-lt floor_log (negsuc b) latency = omega arith

-- The ring of a latency is one of the ten.
pub get_ring-lt :
    (floor_log : ℕ → ℕ → ℤ) (s : RingSet) (latency : ℕ) → get_ring floor_log s latency < max_rings
unfolding get_ring
get_ring-lt floor_log s latency = ring_of_base-lt floor_log s.exponent_base latency

-- An insertion keeps a ring set valid: ten rings, each list within its size.
pub insert-IsValid :
    (floor_log : ℕ → ℕ → ℤ) (s : RingSet) (node : Node) (latency : ℕ)
    → IsValid s
    → IsValid (insert floor_log s node latency).1
unfolding insert
insert-IsValid floor_log s node latency valid =
    let i : ℕ = get_ring floor_log s latency in
    let ring : Ring = ring_at s i in
    let kept : Fits s.primary_size s.secondary_size ring = valid.fits i in
    let P : Bool × RingSet → Type 0 = λ r. IsValid r.1 in
    if_intro P (leb max_rings i) _ _ (λ _. valid)
      (λ _.
        if_intro P ring.frozen _ _ (λ _. valid)
          (λ _.
            if_intro P (ltb (length ring.primary) s.primary_size) _ _
              (λ room. with_ring-IsValid s i _ valid (record {
                primary_fits = ground (arith, length-append ring.primary (node ∷ []));
                secondary_fits = kept.secondary_fits;
              }))
              (λ _.
                if_intro P (ltb (length ring.secondary) s.secondary_size) _ _
                  (λ room. with_ring-IsValid s i _ valid (record {
                    primary_fits = kept.primary_fits;
                    secondary_fits = ground (arith, length-append ring.secondary (node ∷ []));
                  }))
                  (λ _. valid))))

length-splice :
    (node : Node) (nodes rest : List Node)
    → splice node nodes ≡ some rest
    → suc (length rest) ≡ length nodes
unfolding splice
length-splice node [] rest h = absurd (ground arith)
length-splice node (n ∷ nodes) rest h = elim (Bool-cases (identity_match n node)) [
  | inl same ↦ ground (arith, h, same)
  | inr other ↦ elim (Option-cases (splice node nodes)) [
    | inl absent ↦ absurd (ground (arith, h, other, absent))
    | inr (kept, present) ↦ ground (arith, h, other, present, length-splice node nodes kept present)
  ]
]

erase_from-Fits :
    (p q : ℕ) (node : Node) (r r' : Ring) → Fits p q r → erase_from node r ≡ some r' → Fits p q r'
unfolding erase_from
erase_from-Fits p q node r r' h e = elim (Option-cases (splice node r.primary)) [
  | inr (rest, present) ↦
      let known : record r { primary = rest } ≡ r' = ground (arith, e, present) in
      rw (← known) (record {
        primary_fits = omega (arith, length-splice node r.primary rest present, h.primary_fits);
        secondary_fits = h.secondary_fits;
      })
  | inl absent ↦ elim (Option-cases (splice node r.secondary)) [
    | inl none_left ↦ absurd (ground (arith, e, absent, none_left))
    | inr (rest, present) ↦
        let known : record r { secondary = rest } ≡ r' = ground (arith, e, absent, present) in
        rw (← known) (record {
          primary_fits = h.primary_fits;
          secondary_fits =
              omega (arith, length-splice node r.secondary rest present, h.secondary_fits);
        })
  ]
]

-- A removal from one ring keeps the set valid.
pub erase_ring-IsValid :
    (s : RingSet) (node : Node) (i : ℕ) → IsValid s → IsValid (erase_ring s node i).1
unfolding erase_ring
erase_ring-IsValid s node i valid =
    if_intro (λ (r : Bool × RingSet). IsValid r.1) (leb max_rings i) _ _ (λ _. valid)
      (λ _. elim (Option-cases (erase_from node (ring_at s i))) [
        | inl absent ↦ rw absent valid
        | inr (r, present) ↦ rw present (
            with_ring-IsValid s i r valid
              (erase_from-Fits _ _ node (ring_at s i) r (valid.fits i) present))
      ])

-- A promotion keeps a ring set valid: ten rings, each list within its size.
pub promote_secondary-IsValid :
    (s : RingSet) (i : ℕ) → IsValid s → IsValid (promote_secondary s i).1
unfolding promote_secondary
promote_secondary-IsValid s i valid =
    let ring : Ring = ring_at s i in
    let P : Bool × RingSet → Type 0 = λ r. IsValid r.1 in
    if_intro P (leb max_rings i) _ _ (λ _. valid)
      (λ _. elim (List-cases ring.secondary) [
        | inl e ↦ rw e valid
        | inr (n, rest, e) ↦ rw e (
            if_intro P (leb s.primary_size (length ring.primary)) _ _ (λ _. valid)
              (λ room. with_ring-IsValid s i _ valid (record {
                primary_fits = ground (arith, length-append ring.primary (n ∷ []));
                secondary_fits =
                    let fits = (valid.fits i).secondary_fits in
                    omega (arith, fits, ap {B = ℕ} length e);
              })))
      ])
