-- ===== src/Ring.antt =====
-- src/Network/Meridian/meridian_ring.c: the latency rings of a node's peers, each with a primary and
-- a secondary list. Ring numbers are natural, so the tests for a negative one have no counterpart,
-- and the sizes of the rings are below 2^31, where the casts to `int` keep them.
pub mod Keeps
pub mod Effects
pub mod Removal
mod Tests
use poseidon.Prelude.{
  ℕ, zero, suc, ◌+◌, List, [], ◌∷◌, ◌++◌, Bool, true, false, ◌&&◌, not, Option, none, some, ltb,
  leb, ◌==◌, if◌then◌else◌, length, get_or, set, replicate, same_bytes, ◌-◌,
}
use poseidon.Prelude.Entries.{count}
use poseidon.Prelude.Bits.{test_bit}

-- The integers of the C type `int`.
pub data ℤ : Type 0 where
  pos : ℕ → ℤ
  negsuc : ℕ → ℤ

-- `meridian_node_t`, less its reference count and its rendezvous point.
pub record Node : Type 0 where
  pub hash : List ℕ
  pub addr : ℕ
  pub port : ℕ
  pub flags : ℕ

-- MERIDIAN_MAX_RINGS, and the bit that MERIDIAN_NODE_FLAG_RENDEZVOUS is.
abbrev pub max_rings : ℕ
max_rings = 10

abbrev pub is_rendezvous : Node → Bool
is_rendezvous n = test_bit n.flags 0

-- poseidon_node_id_is_null
unfoldable pub is_null : List ℕ → Bool
is_null [] = true
is_null (b ∷ hash) = if not (b == 0) then false else is_null hash

-- meridian_node_equals_by_id and meridian_node_equals_by_addr
unfoldable pub equals_by_id : Node → Node → Bool
equals_by_id a b =
    if is_null a.hash then false else if is_null b.hash then false else same_bytes a.hash b.hash

unfoldable pub equals_by_addr : Node → Node → Bool
equals_by_addr a b = a.addr == b.addr && a.port == b.port

-- node_identity_match
unfoldable pub identity_match : Node → Node → Bool
identity_match a b =
    if not (is_null a.hash) && not (is_null b.hash) then equals_by_id a b else equals_by_addr a b

-- `meridian_ring_t`; its two latency bounds stay 0.
pub record Ring : Type 0 where
  pub primary : List Node
  pub secondary : List Node
  pub frozen : Bool

-- `meridian_ring_set_t`
pub record RingSet : Type 0 where
  pub primary_size : ℕ
  pub secondary_size : ℕ
  pub exponent_base : ℤ
  pub rings : List Ring

abbrev pub empty : Ring
empty = record { primary = []; secondary = []; frozen = false }

-- meridian_ring_set_create
unfoldable pub create : ℕ → ℕ → ℤ → RingSet
create primary_size secondary_size exponent_base = record {
  primary_size = primary_size;
  secondary_size = secondary_size;
  exponent_base = exponent_base;
  rings = replicate max_rings empty;
}

-- `set->rings[i]`
abbrev pub ring_at : RingSet → ℕ → Ring
ring_at s i = get_or s.rings i empty

abbrev pub with_ring : RingSet → ℕ → Ring → RingSet
with_ring s i r = record s { rings = set s.rings i r }

-- The clamp of meridian_ring_set_get_ring.
abbrev pub clamp : ℤ → ℕ
clamp (pos n) = if leb max_rings n then max_rings - 1 else n
clamp (negsuc n) = 0

-- The parameter is `(int) floor(log(latency) / log(base))`, an integer of the C library's choice.
module _ (floor_log : ℕ → ℕ → ℤ) where
  -- The ring of a latency, for a base.
  abbrev pub ring_of_base : ℤ → ℕ → ℕ
  ring_of_base (pos b) latency = if b == 0 then 0 else clamp (floor_log latency b)
  ring_of_base (negsuc b) latency = 0

  -- meridian_ring_set_get_ring
  unfoldable pub get_ring : RingSet → ℕ → ℕ
  get_ring s latency = ring_of_base s.exponent_base latency

  -- meridian_ring_set_insert: whether it returns 0, and the rings.
  unfoldable pub insert : RingSet → Node → ℕ → Bool × RingSet
  insert s node latency =
      let i = get_ring s latency in
      let ring = ring_at s i in
      if leb max_rings i
      then (false, s)
      else if ring.frozen
      then (false, s)
      else if ltb (length ring.primary) s.primary_size
      then (true, with_ring s i (record ring { primary = ring.primary ++ node ∷ [] }))
      else if ltb (length ring.secondary) s.secondary_size
      then (true, with_ring s i (record ring { secondary = ring.secondary ++ node ∷ [] }))
      else (false, s)

-- The search of a list for the node, and the removal of what it finds; `none` where it finds nothing.
unfoldable pub splice : Node → List Node → Option (List Node)
splice node [] = none
splice node (n ∷ nodes) = elim (identity_match n node) [
  | true ↦ some nodes
  | false ↦ elim (splice node nodes) [ none ↦ none | some rest ↦ some (n ∷ rest) ]
]

-- The body of meridian_ring_set_erase_ring: the primary list first, then the secondary one.
unfoldable pub erase_from : Node → Ring → Option Ring
erase_from node ring = elim (splice node ring.primary) [
  | some rest ↦ some (record ring { primary = rest })
  | none ↦ elim (splice node ring.secondary) [
    | some rest ↦ some (record ring { secondary = rest })
    | none ↦ none
  ]
]

-- meridian_ring_set_erase_ring
unfoldable pub erase_ring : RingSet → Node → ℕ → Bool × RingSet
erase_ring s node i = if leb max_rings i then (false, s) else elim (erase_from node (ring_at s i)) [
  | some ring ↦ (true, with_ring s i ring)
  | none ↦ (false, s)
]

-- The loop of meridian_ring_set_erase over the rings.
unfoldable pub erase_loop : Node → List Ring → Option (List Ring)
erase_loop node [] = none
erase_loop node (r ∷ rings) = elim (erase_from node r) [
  | some ring ↦ some (ring ∷ rings)
  | none ↦ elim (erase_loop node rings) [ none ↦ none | some rest ↦ some (r ∷ rest) ]
]

-- meridian_ring_set_erase
unfoldable pub erase : RingSet → Node → Bool × RingSet
erase s node = elim (erase_loop node s.rings) [
  | some rings ↦ (true, record s { rings = rings })
  | none ↦ (false, s)
]

-- meridian_ring_set_find_closest
unfoldable pub find_closest : List Ring → Option Node
find_closest [] = none
find_closest (r ∷ rings) = elim r.primary [ n ∷ rest ↦ some n | [] ↦ find_closest rings ]

-- meridian_ring_set_freeze and meridian_ring_set_unfreeze
unfoldable pub freeze : RingSet → ℕ → RingSet
freeze s i = if leb max_rings i then s else with_ring s i (record (ring_at s i) { frozen = true })

unfoldable pub unfreeze : RingSet → ℕ → RingSet
unfreeze s i =
    if leb max_rings i then s else with_ring s i (record (ring_at s i) { frozen = false })

-- meridian_ring_set_eligible_for_replacement
unfoldable pub eligible_for_replacement : RingSet → ℕ → Bool
eligible_for_replacement s i =
    let ring = ring_at s i in
    if leb max_rings i
    then false
    else if ring.frozen
    then false
    else if not (length ring.primary == s.primary_size)
    then false
    else if length ring.secondary == 0
    then false
    else ltb s.primary_size (
        count (λ n. not (is_rendezvous n)) ring.primary
        + count (λ n. not (is_rendezvous n)) ring.secondary)

-- meridian_ring_set_promote_secondary
unfoldable pub promote_secondary : RingSet → ℕ → Bool × RingSet
promote_secondary s i =
    let ring = ring_at s i in
    if leb max_rings i then (false, s) else elim ring.secondary [
      | [] ↦ (false, s)
      | to_promote ∷ rest ↦ if leb s.primary_size (length ring.primary) then (false, s) else (
        true,
        with_ring s i (record ring { primary = ring.primary ++ to_promote ∷ []; secondary = rest }),
      )
    ]
