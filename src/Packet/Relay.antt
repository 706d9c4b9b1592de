-- ===== src/Packet/Relay.antt =====
-- The packets of meridian_packet.c that a relay and its clients exchange.
use poseidon.Prelude.{ℕ, ◌/◌, ◌%◌, ◌^◌, Option, List, [], ◌∷◌, ◌==◌}
use poseidon.Prelude.Outcome.{Outcome, done, guard, ◌>>=◌, ◌>>◌}
use poseidon.Cbor.{Cbor, bits8, bits16, bits32, bits64, push_all}
use poseidon.Packet.{join_id, uint_at, array_of}

-- MERIDIAN_PACKET_TYPE_ADDR_RESPONSE, MERIDIAN_PACKET_TYPE_PUNCH_REQUEST and
-- MERIDIAN_PACKET_TYPE_PUNCH_SYNC
abbrev pub addr_response_type : ℕ
addr_response_type = 31

abbrev pub punch_request_type : ℕ
punch_request_type = 33

abbrev pub punch_sync_type : ℕ
punch_sync_type = 34

-- `meridian_addr_response_t`
pub record AddrResponse : Type 0 where
  pub packet_type : ℕ
  pub query_id : ℕ
  pub reflexive_addr : ℕ
  pub reflexive_port : ℕ
  pub endpoint_id : ℕ

-- `meridian_punch_request_t`, and `meridian_punch_sync_t` with the sender's address and port.
pub record Punch : Type 0 where
  pub packet_type : ℕ
  pub query_id : ℕ
  pub from_endpoint_id : ℕ
  pub addr : ℕ
  pub port : ℕ

module _ (api : Cbor) where
  open api use {Item, new_array, build_uint}

  abbrev pub addr_response_items : AddrResponse → List Item
  addr_response_items pkt =
      build_uint bits8 pkt.packet_type
      ∷ build_uint bits64 (pkt.query_id / 2 ^ 32)
      ∷ build_uint bits64 (pkt.query_id % 2 ^ 32)
      ∷ build_uint bits32 pkt.reflexive_addr
      ∷ build_uint bits16 pkt.reflexive_port
      ∷ build_uint bits32 pkt.endpoint_id
      ∷ []

  -- meridian_addr_response_encode and meridian_addr_response_decode
  unfoldable pub encode_addr_response : AddrResponse → Option Item
  encode_addr_response pkt = push_all api (new_array 6) (addr_response_items pkt)

  unfoldable pub decode_addr_response : Item → Outcome AddrResponse
  decode_addr_response item = do
    items ← array_of api item 6
    packet_type ← uint_at api items 0 bits8
    qid_1 ← uint_at api items 1 bits64
    qid_2 ← uint_at api items 2 bits64
    reflexive_addr ← uint_at api items 3 bits32
    reflexive_port ← uint_at api items 4 bits16
    endpoint_id ← uint_at api items 5 bits32
    guard (packet_type == addr_response_type)
    done (record {
      packet_type = packet_type;
      query_id = join_id qid_1 qid_2;
      reflexive_addr = reflexive_addr;
      reflexive_port = reflexive_port;
      endpoint_id = endpoint_id;
    })

  abbrev pub punch_items : Punch → List Item
  punch_items pkt =
      build_uint bits8 pkt.packet_type
      ∷ build_uint bits64 (pkt.query_id / 2 ^ 32)
      ∷ build_uint bits64 (pkt.query_id % 2 ^ 32)
      ∷ build_uint bits32 pkt.from_endpoint_id
      ∷ build_uint bits32 pkt.addr
      ∷ build_uint bits16 pkt.port
      ∷ []

  -- meridian_punch_request_encode and meridian_punch_sync_encode
  unfoldable pub encode_punch : Punch → Option Item
  encode_punch pkt = push_all api (new_array 6) (punch_items pkt)

  -- meridian_punch_request_decode and meridian_punch_sync_decode, which expect their own type.
  unfoldable pub decode_punch : ℕ → Item → Outcome Punch
  decode_punch expected item = do
    items ← array_of api item 6
    packet_type ← uint_at api items 0 bits8
    qid_1 ← uint_at api items 1 bits64
    qid_2 ← uint_at api items 2 bits64
    from_endpoint_id ← uint_at api items 3 bits32
    addr ← uint_at api items 4 bits32
    port ← uint_at api items 5 bits16
    guard (packet_type == expected)
    done (record {
      packet_type = packet_type;
      query_id = join_id qid_1 qid_2;
      from_endpoint_id = from_endpoint_id;
      addr = addr;
      port = port;
    })
