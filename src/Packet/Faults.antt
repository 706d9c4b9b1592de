-- ===== src/Packet/Faults.antt =====
-- Packets that cannot be written, and packets that are read at the wrong width.
use poseidon.Prelude.{
  ℕ, ◌+◌, ◌%◌, ◌^◌, ◌<◌, ◌≡◌, refl, false, none, some, List, [], ◌∷◌, ◌++◌, arith, leb, length, map,
  length-map, ◌==◌, Bool-cases, inl, inr,
}
use poseidon.Prelude.Outcome.{overrun}
use poseidon.Cbor.{Cbor, Width, bits, bits8, bits64}
use poseidon.Cbor.Laws.{CborLaws, IsArray, new_array-IsArray, push_all-IsArray, push_all_full}
use poseidon.Packet.{
  Packet, GossipPacket, PingPacket, base_items, target_items, latency_items, magic_number,
  encode_packet, encode_ping, encode_gossip, decode_gossip, decode_ping,
}
use poseidon.Packet.Channel.{Bootstrap, bootstrap_type, decode_bootstrap}
use poseidon.Packet.Arrays.{
  FitsPacket, array_of_lem, get_lem, decode_base_lem, push_arrays-IsArray, push_arrays_full,
}

module _ (api : Cbor) (laws : CborLaws api) where
  open api use {Item, build_uint, new_array, build_string}

  encode_packet_fails : (pkt : Packet) → encode_packet api pkt ≡ none
  unfolding encode_packet
  encode_packet_fails pkt =
      push_all_full api laws (new_array 5) 5 [] (base_items api pkt) (new_array-IsArray api laws 5)
        (omega arith) (omega arith)

  encode_ping_fails : (pkt : PingPacket) → encode_ping api pkt ≡ none
  unfolding encode_ping
  encode_ping_fails pkt =
      let n : ℕ = length pkt.nodes in
      let head : List Item = base_items api pkt.base ++ build_uint bits8 (n % 2 ^ 8) ∷ [] in
      elim (Bool-cases (leb 1 n)) [
        | inl several ↦
            let (a, made, is_head) =
              push_all-IsArray api laws (new_array (6 + n)) (6 + n) [] head
                (new_array-IsArray api laws (6 + n)) (ground (arith, several)) in
            rw made (
              push_arrays_full api laws a (6 + n) head (map (latency_items api) pkt.nodes) is_head
                (ground (arith, several)) (omega (arith, length-map (latency_items api) pkt.nodes)))
        | inr no_node ↦
            rw
              (push_all_full api laws (new_array (6 + n)) (6 + n) [] head
                (new_array-IsArray api laws (6 + n)) (omega arith) (ground (arith, no_node)))
              refl
      ]

  -- The encoders of base packets and of ping packets fail on every packet: their arrays have one
  -- cell too few.
  pub encoders_fail :
      (pkt : Packet) (ping : PingPacket)
      → (encode_packet api pkt ≡ none) × (encode_ping api ping ≡ none)
  encoders_fail pkt ping = (encode_packet_fails pkt, encode_ping_fails ping)

  -- A gossip packet is encoded as its header, the number of targets and the targets.
  pub encode_gossip-IsArray :
      (pkt : GossipPacket)
      → (a : Item) × (items : List Item) × (encode_gossip api pkt ≡ some a)
        × IsArray api laws a
            (7 + length pkt.targets)
            (base_items api pkt.base ++ build_uint bits8 (length pkt.targets % 2 ^ 8) ∷ items)
  unfolding encode_gossip
  encode_gossip-IsArray pkt =
      let n : ℕ = length pkt.targets in
      let head : List Item = base_items api pkt.base ++ build_uint bits8 (n % 2 ^ 8) ∷ [] in
      let (a, made, is_head) =
        push_all-IsArray api laws (new_array (7 + n)) (7 + n) [] head
          (new_array-IsArray api laws (7 + n)) (omega arith) in
      let (b, items, pushed, is_whole, arrays) =
        push_arrays-IsArray api laws a (7 + n) head (map (target_items api) pkt.targets) is_head
          (omega (arith, length-map (target_items api) pkt.targets)) in
      (b, items, rw made pushed, is_whole)

  pub decode_gossip_lem :
      (pkt : GossipPacket) (a : Item) (n m : ℕ) (items : List Item)
      → FitsPacket pkt.base
      → pkt.base.magic ≡ magic_number
      → IsArray api laws a n (base_items api pkt.base ++ build_uint bits8 m ∷ items)
      → decode_gossip api a ≡ overrun
  unfolding decode_gossip
  decode_gossip_lem pkt a n m items fits known h =
      rw
        (
          array_of_lem api laws a n 7 (base_items api pkt.base ++ build_uint bits8 m ∷ items) h
              (omega arith),
          decode_base_lem api laws pkt.base (build_uint bits8 m ∷ items) fits,
          known,
          laws.width_lem bits64 bits8 m refl,
        )
        refl

  -- A gossip packet is encoded, and its decoder reads the number of targets at the wrong width.
  pub decode-encode_gossip :
      (pkt : GossipPacket)
      → FitsPacket pkt.base
      → pkt.base.magic ≡ magic_number
      → (a : Item) × (encode_gossip api pkt ≡ some a) × (decode_gossip api a ≡ overrun)
  decode-encode_gossip pkt fits known =
      let (a, items, made, h) = encode_gossip-IsArray pkt in
      (
        a,
        made,
        decode_gossip_lem pkt a (7 + length pkt.targets) (length pkt.targets % 2 ^ 8) items fits
            known h,
      )

  -- On an array with just the six items of a base packet, with fields within their types and the
  -- right magic number, the decoder of pings reads a seventh item, past the end of the array.
  pub decode_ping-short :
      (a : Item) (n : ℕ) (pkt : Packet)
      → FitsPacket pkt
      → pkt.magic ≡ magic_number
      → IsArray api laws a n (base_items api pkt)
      → decode_ping api a ≡ overrun
  unfolding decode_ping
  decode_ping-short a n pkt fits known h =
      rw
        (
          array_of_lem api laws a n 6 (base_items api pkt) h (omega arith),
          decode_base_lem api laws pkt [] fits,
          known,
        )
        refl

  -- On a bootstrap whose strings fit their buffers, but whose time stands in an integer of fewer
  -- than 64 bits, the decoder reads 64 bits: it tests the kind of the item, but not its width.
  pub decode_bootstrap-narrow :
      (a : Item) (n : ℕ) (pkt : Bootstrap) (width : Width) (topic_buf_size node_id_buf_size : ℕ)
      → length pkt.topic_id < topic_buf_size
      → length pkt.sender_node_id < node_id_buf_size
      → pkt.timestamp_us < 2 ^ bits width
      → (64 == bits width) ≡ false
      → IsArray api laws a n (
          build_uint bits8 bootstrap_type
          ∷ build_string pkt.topic_id
          ∷ build_string pkt.sender_node_id
          ∷ build_uint width pkt.timestamp_us
          ∷ [])
      → decode_bootstrap api topic_buf_size node_id_buf_size a ≡ overrun
  unfolding decode_bootstrap
  decode_bootstrap-narrow a n pkt width topic_size node_size small few short narrow h =
      rw
        (
          array_of_lem api laws a n 4 _ h (omega arith),
          (laws.uint_lem bits8 bootstrap_type (omega arith)).1,
          get_lem api laws bits8 bootstrap_type (omega arith),
          (laws.string_lem pkt.topic_id).1,
          (laws.string_lem pkt.topic_id).0,
          (laws.string_lem pkt.sender_node_id).1,
          (laws.string_lem pkt.sender_node_id).0,
          (laws.uint_lem width pkt.timestamp_us short).1,
          laws.width_lem bits64 width pkt.timestamp_us narrow,
        )
        (ground arith)
