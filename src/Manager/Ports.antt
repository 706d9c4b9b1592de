-- ===== src/Manager/Ports.antt =====
-- The ports that the manager hands out.
use poseidon.Prelude.{
  ℕ, zero, suc, ◌+◌, ◌%◌, ◌^◌, ◌≤◌, ◌<◌, ◌≡◌, inl, inr, List, [], ◌∷◌, arith, ltb, leb,
  if◌then◌else◌, Bool-cases, get_or,
}
use poseidon.Manager.{Manager, allocate_port}

-- The ports of `n` allocations in a row.
abbrev pub ports : ℕ → Manager → List ℕ
ports zero m = []
ports (suc n) m = (allocate_port m).0 ∷ ports n (allocate_port m).1

-- With a port range that ends below 65535 and a next port that is at most one above its end,
-- allocations in a row give the next port and those after it up to the end of the range, and then
-- none.
pub ports_lem :
    (n k : ℕ) (m : Manager)
    → m.port_range_end < 65535
    → m.next_port ≤ m.port_range_end + 1
    → k < n
    → get_or (ports n m) k 0
      ≡ (if leb (m.next_port + k) m.port_range_end then m.next_port + k else 0)
unfolding allocate_port
ports_lem zero k m h l less = absurd (omega arith)
ports_lem (suc n) zero m h l less = ground arith
ports_lem (suc n) (suc k) m h l less = elim (Bool-cases (ltb m.port_range_end m.next_port)) [
  | inl e ↦ rw e (ground (arith, e, ports_lem n k m h l (omega arith)))
  | inr e ↦
      let fits : (m.next_port + 1) % 2 ^ 16 ≡ m.next_port + 1 = ground (arith, e) in
      rw (e, fits)
        (ground (
          arith,
          e,
          ports_lem n k (record m { next_port = m.next_port + 1 }) h (ground (arith, e))
              (omega arith),
        ))
]

-- After the port 65535 the allocation starts again at 0.
next_port-wraps :
    (m : Manager)
    → m.next_port ≡ 65535
    → m.port_range_end ≡ 65535
    → ((allocate_port m).0 ≡ 65535)
      × ((allocate_port (allocate_port m).1).0 ≡ 0)
      × ((allocate_port (allocate_port (allocate_port m).1).1).0 ≡ 1)
unfolding allocate_port
next_port-wraps m h k = ground (arith, h, k)
