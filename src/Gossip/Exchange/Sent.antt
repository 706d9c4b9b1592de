-- ===== src/Gossip/Exchange/Sent.antt =====
-- What a node makes of the gossip that another node sends.
use poseidon.Prelude.{
  ℕ, zero, suc, ◌+◌, ◌*◌, ◌%◌, ◌^◌, ◌<◌, ◌≡◌, refl, sym, ap, ◌∙◌, some, List, [], ◌∷◌, ◌++◌, arith,
  length, get_elem?,
}
use poseidon.Prelude.Bits.{bit_or-shifted}
use poseidon.Prelude.Outcome.{overrun, done}
use poseidon.Cbor.{Cbor, bits8}
use poseidon.Cbor.Laws.{CborLaws}
use poseidon.Packet
use poseidon.Packet.{
  Target, GossipPacket, join_id, base_items, encode_gossip, decode_gossip, magic_number,
}
use poseidon.Packet.Arrays.{FitsPacket, get_lem}
use poseidon.Packet.Faults.{encode_gossip-IsArray, decode_gossip_lem}
use poseidon.Gossip.Exchange.{
  Handle, Exchange, gossip_type, create, build_packet, query_id_of, send_gossip, on_packet,
}

-- The rendezvous points of the targets fit their types.
abbrev pub AllTargets : List (ℕ × Target) → Type 0
AllTargets [] = zero ≡ zero
AllTargets ((address, target) ∷ targets) =
    (target.rendv_addr < 2 ^ 32) × (target.rendv_port < 2 ^ 16) × AllTargets targets

query_id_lt : (i address : ℕ) → query_id_of i address < 2 ^ 64
unfolding query_id_of join_id
query_id_lt i address =
    let wrapped : (i + 1) * 2 ^ 32 % 2 ^ 64 ≡ (i + 1) % 2 ^ 32 * 2 ^ 32 = omega arith in
    rw (wrapped, bit_or-shifted 32 ((i + 1) % 2 ^ 32) (address % 2 ^ 32) (omega arith))
      (omega arith)

build_packet-FitsPacket :
    (now id timeout_ms : ℕ) (target : Target)
    → id < 2 ^ 64
    → target.rendv_addr < 2 ^ 32
    → target.rendv_port < 2 ^ 16
    → FitsPacket (build_packet (create now id target timeout_ms)).base
unfolding build_packet create Packet.create
build_packet-FitsPacket now id timeout_ms target id_fits addr_fits port_fits = record {
  type_fits = omega arith;
  id_fits = id_fits;
  magic_fits = omega arith;
  addr_fits = addr_fits;
  port_fits = port_fits;
}

known_lem :
    (gossip : Exchange)
    → ((build_packet gossip).base.magic ≡ magic_number)
      × ((build_packet gossip).base.packet_type ≡ gossip_type)
unfolding build_packet Packet.create
known_lem gossip = (refl, refl)

module _ (api : Cbor) (laws : CborLaws api) where
  open api use {Item}

  on_packet_lem :
      (pkt : GossipPacket) (handle : Handle)
      → FitsPacket pkt.base
      → pkt.base.magic ≡ magic_number
      → pkt.base.packet_type ≡ gossip_type
      → (a : Item) × (encode_gossip api pkt ≡ some a) × (on_packet api handle a ≡ overrun)
  unfolding on_packet
  on_packet_lem pkt handle fits known kind =
      let (a, items, made, h) = encode_gossip-IsArray api laws pkt in
      (
        a,
        made,
        rw
            (
              h.definite,
              (laws.size_lem a _ h.holds).0,
              h.holds,
              decode_gossip_lem api laws pkt a (7 + length pkt.targets) (length pkt.targets % 2 ^ 8)
                  items fits known h,
              get_lem api laws bits8 pkt.base.packet_type fits.type_fits ∙ ap done kind,
            )
            (ground arith),
      )

  sent_item :
      (item a : Item) (target t : Target)
      → get_elem? {A = Item × Target} ((a, t) ∷ []) 0 ≡ some (item, target)
      → a ≡ item
  sent_item item a target t found = ground (arith, found)

  -- A packet that stands in the list is the first one, or one of the rest.
  sent_lem :
      {item : Item} {target : Target} (receiver : Handle) (a : Item) (t : Target)
      (rest : List (Item × Target))
      → on_packet api receiver a ≡ overrun
      → ((k : ℕ) → get_elem? rest k ≡ some (item, target) → on_packet api receiver item ≡ overrun)
      → (j : ℕ) → get_elem? ((a, t) ∷ rest) j ≡ some (item, target)
      → on_packet api receiver item ≡ overrun
  sent_lem receiver a t rest over later zero found =
      ap (on_packet api receiver) (sym (sent_item _ a _ t found)) ∙ over
  sent_lem receiver a t rest over later (suc j) found = later j found

  -- Every packet that a node sends to targets whose rendezvous points fit their types makes the
  -- handler of any receiver read past an item: the number of targets is written with 8 bits and
  -- read with 64.
  pub on_packet-sent :
      (now i : ℕ) (handle receiver : Handle) (targets : List (ℕ × Target)) (j : ℕ) (item : Item)
      (target : Target)
      → AllTargets targets
      → get_elem? (send_gossip api now i handle targets).0 j ≡ some (item, target)
      → on_packet api receiver item ≡ overrun
  unfolding send_gossip
  on_packet-sent now i handle receiver [] j item target fits found = absurd (ground (arith, found))
  on_packet-sent now i handle receiver ((address, t) ∷ targets) j item target
        (addr_fits, port_fits, fits) found =
      let gossip : Exchange = create now (query_id_of i address) t handle.timeout_ms in
      let next : Handle = record handle { active_gossips = handle.active_gossips ++ gossip ∷ [] } in
      let (a, made, over) =
        on_packet_lem (build_packet gossip) receiver
          (build_packet-FitsPacket now (query_id_of i address) handle.timeout_ms t
            (query_id_lt i address) addr_fits port_fits)
          (known_lem gossip).0 (known_lem gossip).1 in
      let rest : List (Item × Target) = (send_gossip api now (i + 1) next targets).0 in
      let sends : (send_gossip api now i handle ((address, t) ∷ targets)).0 ≡ (a, t) ∷ rest =
        rw (send_gossip, made) refl in
      sent_lem receiver a t rest over
        (λ k h. on_packet-sent now (i + 1) next receiver targets k item target fits h) j
        (sym (ap (λ xs. get_elem? xs j) sends) ∙ found)
