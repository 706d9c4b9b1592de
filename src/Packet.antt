-- ===== src/Packet.antt =====
-- src/Network/Meridian/meridian_packet.c: packets as CBOR arrays, over the functions of libcbor. The
-- nodes that a packet shares are their addresses and ports.
pub mod Relay
pub mod Channel
pub mod Arrays
pub mod Faults
pub mod Codec
mod Tests
use Prim.Native.Nat.{bit_or}
use poseidon.Prelude.{
  ℕ, zero, suc, ◌+◌, ◌*◌, ◌/◌, ◌%◌, ◌^◌, ◌≡◌, Bool, Option, none, some, List, [], ◌∷◌, ◌++◌, ltb,
  leb, ◌==◌, ◌&&◌, length, map, if◌then◌else◌,
}
use poseidon.Prelude.Outcome.{Outcome, refused, overrun, done, guard, ◌>>=◌, ◌>>◌}
use poseidon.Cbor.{Cbor, Width, and_then, bits8, bits16, bits32, bits64, item_at, push_all}

-- MERIDIAN_MAX_NODES and MERIDIAN_MAGIC_NUMBER
abbrev pub max_nodes : ℕ
max_nodes = 256

abbrev pub magic_number : ℕ
magic_number = 0x0A0B0C0D

-- `meridian_packet_t`
pub record Packet : Type 0 where
  pub packet_type : ℕ
  pub query_id : ℕ
  pub magic : ℕ
  pub rendv_addr : ℕ
  pub rendv_port : ℕ

-- What a gossip packet shares of a `meridian_node_t`.
pub record Target : Type 0 where
  pub addr : ℕ
  pub port : ℕ
  pub rendv_addr : ℕ
  pub rendv_port : ℕ

-- `meridian_gossip_packet_t`
pub record GossipPacket : Type 0 where
  pub base : Packet
  pub targets : List Target

-- `meridian_node_latency_t`, and an entry of the two vectors of `meridian_ping_packet_t`.
pub record NodeLatency : Type 0 where
  pub addr : ℕ
  pub port : ℕ
  pub latency_us : ℕ

-- `meridian_ping_packet_t`
pub record PingPacket : Type 0 where
  pub base : Packet
  pub nodes : List NodeLatency

-- meridian_gossip_packet_create and meridian_ping_packet_create, with the types 10 and 14.
unfoldable pub create : ℕ → Packet
create packet_type = record {
  packet_type = packet_type;
  query_id = 0;
  magic = magic_number;
  rendv_addr = 0;
  rendv_port = 0;
}

-- `(qid_1 << 32) | qid_2`
unfoldable pub join_id : ℕ → ℕ → ℕ
join_id qid_1 qid_2 = bit_or (qid_1 * 2 ^ 32 % 2 ^ 64) qid_2

module _ (api : Cbor) where
  open api use {Item, new_array, push, is_definite, array_size, array_items, build_uint, get_uint}

  -- The read `cbor_get_uint…(items[i])`.
  abbrev pub uint_at : List Item → ℕ → Width → Outcome ℕ
  uint_at items i width = item_at items i >>= λ item. get_uint width item

  -- The items that stand for the fields of `meridian_packet_t`.
  abbrev pub base_items : Packet → List Item
  base_items pkt =
      build_uint bits8 pkt.packet_type
      ∷ build_uint bits64 (pkt.query_id / 2 ^ 32)
      ∷ build_uint bits64 (pkt.query_id % 2 ^ 32)
      ∷ build_uint bits32 pkt.magic
      ∷ build_uint bits32 pkt.rendv_addr
      ∷ build_uint bits16 pkt.rendv_port
      ∷ []

  abbrev pub decode_base : List Item → Outcome Packet
  decode_base items = do
    packet_type ← uint_at items 0 bits8
    qid_1 ← uint_at items 1 bits64
    qid_2 ← uint_at items 2 bits64
    magic ← uint_at items 3 bits32
    rendv_addr ← uint_at items 4 bits32
    rendv_port ← uint_at items 5 bits16
    done (record {
      packet_type = packet_type;
      query_id = join_id qid_1 qid_2;
      magic = magic;
      rendv_addr = rendv_addr;
      rendv_port = rendv_port;
    })

  -- The start of the decoders: a definite array of at least `n` items.
  abbrev pub array_of : Item → ℕ → Outcome (List Item)
  array_of item n = do
    definite ← is_definite item
    guard definite
    size ← array_size item
    guard (leb n size)
    array_items item

  -- meridian_packet_encode and meridian_packet_decode
  unfoldable pub encode_packet : Packet → Option Item
  encode_packet pkt = push_all api (new_array 5) (base_items pkt)

  unfoldable pub decode_packet : Item → Outcome Packet
  decode_packet item = do
    items ← array_of item 5
    pkt ← decode_base items
    guard (pkt.magic == magic_number)
    done pkt

  -- A loop that pushes an array for each node.
  unfoldable pub push_arrays : Item → List (List Item) → Option Item
  push_arrays array [] = some array
  push_arrays array (cells ∷ rest) =
      and_then (push_all api (new_array (length cells)) cells)
        λ node. and_then (push array node) λ more. push_arrays more rest

  abbrev pub target_items : Target → List Item
  target_items target =
      build_uint bits32 target.addr
      ∷ build_uint bits16 target.port
      ∷ build_uint bits32 target.rendv_addr
      ∷ build_uint bits16 target.rendv_port
      ∷ []

  -- meridian_gossip_encode
  unfoldable pub encode_gossip : GossipPacket → Option Item
  encode_gossip pkt =
      and_then
        (push_all api (new_array (7 + length pkt.targets))
          (base_items pkt.base ++ build_uint bits8 (length pkt.targets % 2 ^ 8) ∷ []))
        λ array. push_arrays array (map target_items pkt.targets)

  -- The loop of meridian_gossip_decode, with `n` rounds left.
  unfoldable pub decode_targets : ℕ → List Item → ℕ → Outcome (List Target)
  decode_targets zero items idx = done []
  decode_targets (suc n) items idx = do
    guard (ltb idx (length items))
    node ← item_at items idx
    definite ← is_definite node
    guard definite
    size ← array_size node
    guard (size == 4)
    cells ← array_items node
    addr ← uint_at cells 0 bits32
    port ← uint_at cells 1 bits16
    rendv_addr ← uint_at cells 2 bits32
    rendv_port ← uint_at cells 3 bits16
    rest ← decode_targets n items (suc idx)
    done (
        record { addr = addr; port = port; rendv_addr = rendv_addr; rendv_port = rendv_port }
        ∷ rest)

  -- meridian_gossip_decode
  unfoldable pub decode_gossip : Item → Outcome GossipPacket
  decode_gossip item = do
    items ← array_of item 7
    base ← decode_base items
    guard (base.magic == magic_number)
    num_targets ← uint_at items 6 bits64
    guard (leb num_targets max_nodes && leb (num_targets + 7) (length items))
    targets ← decode_targets num_targets items 7
    done (record { base = base; targets = targets })

  abbrev pub latency_items : NodeLatency → List Item
  latency_items node =
      build_uint bits32 node.addr
      ∷ build_uint bits16 node.port
      ∷ build_uint bits32 node.latency_us
      ∷ []

  -- meridian_ping_encode
  unfoldable pub encode_ping : PingPacket → Option Item
  encode_ping pkt =
      and_then
        (push_all api (new_array (6 + length pkt.nodes))
          (base_items pkt.base ++ build_uint bits8 (length pkt.nodes % 2 ^ 8) ∷ []))
        λ array. push_arrays array (map latency_items pkt.nodes)

  -- meridian_ping_decode. The loop passes the address of a cell of the array for an item, so that
  -- the first node is read outside of it.
  unfoldable pub decode_ping : Item → Outcome PingPacket
  decode_ping item = do
    items ← array_of item 6
    base ← decode_base items
    guard (base.magic == magic_number)
    num_nodes ← uint_at items 6 bits64
    guard (leb num_nodes max_nodes && leb (num_nodes + 7) (length items))
    if num_nodes == 0 then done (record { base = base; nodes = [] }) else do
      node ← item_at items 7
      definite ← is_definite node
      guard definite
      size ← array_size node
      guard (size == 3)
      overrun
