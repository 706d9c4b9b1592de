-- ===== src/Gossip/Exchange.antt =====
-- The exchanges of meridian_gossip.c: what a node sends to its targets, and what it makes of a packet.
pub mod Sent
use poseidon.Prelude.{
  ℕ, zero, suc, ◌+◌, ◌*◌, ◌/◌, ◌%◌, ◌^◌, Bool, true, false, Option, none, some, List, [], ◌∷◌, ◌++◌,
  ltb, leb, ◌==◌, if◌then◌else◌, length, set, get_or, map,
}
use poseidon.Prelude.Entries.{find}
use poseidon.Prelude.Outcome.{Outcome, refused, overrun, done, guard, ◌>>=◌, ◌>>◌}
use poseidon.Cbor.{Cbor, bits8, item_at}
use poseidon.Packet
use poseidon.Packet.{Packet, Target, GossipPacket, join_id, encode_gossip, decode_gossip, uint_at}

-- MERIDIAN_PACKET_TYPE_GOSSIP
abbrev pub gossip_type : ℕ
gossip_type = 10

-- `meridian_gossip_state_t`
pub data State : Type 0 where
  init active wait_reply : State

-- `meridian_gossip_t`, less its two intervals, which are never read.
pub record Exchange : Type 0 where
  pub query_id : ℕ
  pub state : State
  pub target : Target
  pub start_time : ℕ
  pub reply_timeout : ℕ
  pub active : Bool

-- meridian_gossip_create, at the time `now`.
unfoldable pub create : ℕ → ℕ → Target → ℕ → Exchange
create now query_id target timeout_ms = record {
  query_id = query_id;
  state = State.init;
  target = target;
  start_time = now;
  reply_timeout = timeout_ms / 1000 * 1000000 + timeout_ms % 1000 * 1000;
  active = false;
}

-- meridian_gossip_start
unfoldable pub start : Exchange → Exchange
start gossip = record gossip { active = true; state = State.active }

-- meridian_gossip_is_expired, at the time `now`.
unfoldable pub is_expired : ℕ → Exchange → Bool
is_expired now gossip = ltb (gossip.start_time + gossip.reply_timeout) now

-- meridian_gossip_handle_response
unfoldable pub handle_response : Exchange → Exchange
handle_response gossip = elim gossip.state [
  | State.wait_reply ↦ record gossip { state = State.active }
  | _ ↦ gossip
]

-- meridian_gossip_build_packet
unfoldable pub build_packet : Exchange → GossipPacket
build_packet gossip = record {
  base = record (Packet.create gossip_type) {
    query_id = gossip.query_id;
    rendv_addr = gossip.target.rendv_addr;
    rendv_port = gossip.target.rendv_port;
  };
  targets = gossip.target ∷ [];
}

-- What meridian_gossip_handle_t keeps for the exchanges; `listens` is `completed_cb != NULL`.
pub record Handle : Type 0 where
  pub active_gossips : List Exchange
  pub timeout_ms : ℕ
  pub listens : Bool

-- `qid` for the target at index `i`, which stands at an address in memory.
unfoldable pub query_id_of : ℕ → ℕ → ℕ
query_id_of i address = join_id (i + 1) (address % 2 ^ 32)

module _ (api : Cbor) where
  open api use {Item, is_definite, array_size, array_items}

  -- meridian_gossip_handle_send_gossip from the index `i` on, for targets with their addresses: what
  -- is handed to `outbound_cb`, and the handle. libcbor's serialization of an item is left out.
  unfoldable pub send_gossip : ℕ → ℕ → Handle → List (ℕ × Target) → List (Item × Target) × Handle
  send_gossip now i handle [] = ([], handle)
  send_gossip now i handle ((address, target) ∷ targets) =
      let gossip = create now (query_id_of i address) target handle.timeout_ms in
      let handle' = record handle { active_gossips = handle.active_gossips ++ gossip ∷ [] } in
      let (sent, last) = send_gossip now (i + 1) handle' targets in
      elim (encode_gossip api (build_packet gossip)) [
        | none ↦ (sent, last)
        | some item ↦ ((item, target) ∷ sent, last)
      ]

  -- The answer of the first exchange with the identifier of the packet.
  unfoldable pub answer : ℕ → List Exchange → List Exchange
  answer query_id [] = []
  answer query_id (g ∷ gossips) = elim (g.query_id == query_id) [
    | true ↦ handle_response g ∷ gossips
    | false ↦ let rest = answer query_id gossips in g ∷ rest
  ]

  -- meridian_gossip_handle_on_packet, for the item that cbor_load gives: the targets that are handed to
  -- `completed_cb`, and the handle.
  unfoldable pub on_packet : Handle → Item → Outcome (Option (ℕ × List Target) × Handle)
  on_packet handle item = do
    definite ← is_definite item
    guard definite
    size ← array_size item
    guard (leb 1 size)
    items ← array_items item
    packet_type ← uint_at api items 0 bits8
    guard (packet_type == gossip_type)
    pkt ← decode_gossip api item
    done (
      if handle.listens
          then (if ltb 0 (length pkt.targets) then some (pkt.base.query_id, pkt.targets) else none)
          else none,
      record handle { active_gossips = answer pkt.base.query_id handle.active_gossips },
    )
