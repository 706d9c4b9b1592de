-- ===== src/Packet/Tests.antt =====
-- Packets over items as trees.
use poseidon.Prelude.{◌≡◌, refl, none, some, List, [], ◌∷◌, arith, take}
use poseidon.Prelude.Outcome.{overrun, done}
use poseidon.Cbor.{bits8, bits32}
use poseidon.Cbor.Tree
use poseidon.Cbor.Tree.{Item, tree, tree_laws, packed, packed-IsArray}
use poseidon.Cbor.Laws.{IsArray}
use poseidon.Packet.{
  Packet, GossipPacket, PingPacket, base_items, magic_number, encode_packet, encode_ping,
}
use poseidon.Packet.Channel.{
  Bootstrap, BootstrapReply, DeleteNotice, bootstrap_type, decode_bootstrap, encode_reply,
  decode_reply, encode_delete_notice, decode_delete_notice,
}
use poseidon.Packet.Arrays.{FitsPacket}
use poseidon.Packet.Faults.{encoders_fail, decode_bootstrap-narrow}
use poseidon.Packet.Codec.{FitsReply, FitsNotice, decode-encode_reply, decode-encode_delete_notice}

abbrev head : Packet
head = record {
  packet_type = 10;
  query_id = 4294967297;
  magic = magic_number;
  rendv_addr = 7;
  rendv_port = 8;
}

head-FitsPacket : FitsPacket head
head-FitsPacket = record {
  type_fits = omega arith;
  id_fits = omega arith;
  magic_fits = omega arith;
  addr_fits = omega arith;
  port_fits = omega arith;
}

abbrev gossip : GossipPacket
gossip = record {
  base = head;
  targets = record { addr = 1; port = 2; rendv_addr = 3; rendv_port = 4 } ∷ [];
}

abbrev ping : PingPacket
ping = record { base = head; nodes = record { addr = 1; port = 2; latency_us = 3 } ∷ [] }

encoders_fail_example : (encode_packet tree head ≡ none) × (encode_ping tree ping ≡ none)
encoders_fail_example = encoders_fail tree tree_laws head ping

abbrev six : Item
six = packed (base_items tree head)

six-IsArray : IsArray tree tree_laws six 6 (base_items tree head)
six-IsArray = packed-IsArray (base_items tree head)

abbrev request : Bootstrap
request = record { topic_id = 116 ∷ []; sender_node_id = 110 ∷ []; timestamp_us = 5 }

abbrev narrow_items : List Item
narrow_items =
    Tree.uint bits8 bootstrap_type
    ∷ Tree.text request.topic_id
    ∷ Tree.text request.sender_node_id
    ∷ Tree.uint bits32 request.timestamp_us
    ∷ []

decode_bootstrap-narrow_example : decode_bootstrap tree 64 64 (packed narrow_items) ≡ overrun
decode_bootstrap-narrow_example =
    decode_bootstrap-narrow tree tree_laws (packed narrow_items) 4 request bits32 64 64
      (omega arith) (omega arith) (omega arith) refl (packed-IsArray narrow_items)

abbrev reply : BootstrapReply
reply = record {
  topic_id = 116 ∷ [];
  responder_node_id = 110 ∷ [];
  responder_addr = 16777343;
  responder_port = 9000;
  timestamp_us = 5;
  seeds = (1, 2) ∷ (3, 4) ∷ [];
}

reply-FitsReply : FitsReply reply 64 64
reply-FitsReply = record {
  topic_fits = omega arith;
  node_fits = omega arith;
  addr_fits = omega arith;
  port_fits = omega arith;
  stamp_fits = omega arith;
  seeds_fit = (omega arith, omega arith, (omega arith, omega arith, refl));
}

decode-encode_reply_example :
    (a : Item) × (encode_reply tree reply ≡ some a)
    × (decode_reply tree 64 64 1 a ≡ done (record reply { seeds = take 1 reply.seeds }))
decode-encode_reply_example = decode-encode_reply tree tree_laws reply 64 64 1 reply-FitsReply

abbrev notice : DeleteNotice
notice = record {
  notice_type = 60;
  topic_id = 116 ∷ [];
  node_id = 110 ∷ [];
  key_type = 69 ∷ 67 ∷ [];
  public_key = 1 ∷ 2 ∷ [];
  timestamp_us = 5;
  signature = 3 ∷ [];
}

notice-FitsNotice : FitsNotice notice
notice-FitsNotice = record {
  type_lem = refl;
  topic_fits = omega arith;
  node_fits = omega arith;
  key_type_fits = omega arith;
  key_fits = omega arith;
  stamp_fits = omega arith;
  signature_fits = omega arith;
}

decode-encode_delete_notice_example :
    (a : Item) × (encode_delete_notice tree notice ≡ some a)
    × (decode_delete_notice tree a ≡ done notice)
decode-encode_delete_notice_example =
    decode-encode_delete_notice tree tree_laws notice notice-FitsNotice
