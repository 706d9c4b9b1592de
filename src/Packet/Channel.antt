-- ===== src/Packet/Channel.antt =====
-- The packets of meridian_packet.c for channels: bootstraps, their replies, and notices of deletion.
-- A text or key that is read comes with the size of the buffer it is copied to.
use poseidon.Prelude.{
  ℕ, zero, suc, Bool, Option, List, [], ◌∷◌, ltb, leb, ◌==◌, ◌&&◌, if◌then◌else◌, length, map,
}
use poseidon.Prelude.Outcome.{Outcome, done, guard, ◌>>=◌, ◌>>◌}
use poseidon.Cbor.{Cbor, Width, bits8, bits16, bits32, bits64, item_at, push_all, and_then}
use poseidon.Packet.{array_of, push_arrays}

-- MERIDIAN_PACKET_TYPE_CHANNEL_BOOTSTRAP, MERIDIAN_PACKET_TYPE_CHANNEL_BOOTSTRAP_REPLY and
-- MERIDIAN_PACKET_TYPE_CHANNEL_DELETE_NOTICE
abbrev pub bootstrap_type : ℕ
bootstrap_type = 40

abbrev pub bootstrap_reply_type : ℕ
bootstrap_reply_type = 41

abbrev pub delete_notice_type : ℕ
delete_notice_type = 60

-- `meridian_channel_bootstrap_t`, less the type.
pub record Bootstrap : Type 0 where
  pub topic_id : List ℕ
  pub sender_node_id : List ℕ
  pub timestamp_us : ℕ

-- `meridian_channel_bootstrap_reply_t`, less the type.
pub record BootstrapReply : Type 0 where
  pub topic_id : List ℕ
  pub responder_node_id : List ℕ
  pub responder_addr : ℕ
  pub responder_port : ℕ
  pub timestamp_us : ℕ
  pub seeds : List (ℕ × ℕ)

-- `meridian_channel_delete_notice_t`
pub record DeleteNotice : Type 0 where
  pub notice_type : ℕ
  pub topic_id : List ℕ
  pub node_id : List ℕ
  pub key_type : List ℕ
  pub public_key : List ℕ
  pub timestamp_us : ℕ
  pub signature : List ℕ

module _ (api : Cbor) where
  open api use {
    Item, new_array, push, is_array, is_definite, array_size, array_items, build_uint, is_uint,
    get_uint, build_string, is_string, string_bytes, build_bytestring, is_bytestring,
    bytestring_bytes,
  }

  -- An integer that is tested for its kind, but not for its width.
  abbrev pub read_uint : List Item → ℕ → Width → Outcome ℕ
  read_uint items i width = do item ← item_at items i; guard (is_uint item); get_uint width item

  abbrev pub read_type : List Item → ℕ → Outcome (Unit {0})
  read_type items expected = do
    packet_type ← read_uint items 0 bits8
    guard (packet_type == expected)

  -- A string that fits a buffer with its terminator.
  abbrev pub read_string : List Item → ℕ → ℕ → Outcome (List ℕ)
  read_string items i buf_size = do
    item ← item_at items i
    guard (is_string item)
    text ← string_bytes item
    guard (ltb (length text) buf_size)
    done text

  abbrev pub bootstrap_items : Bootstrap → List Item
  bootstrap_items pkt =
      build_uint bits8 bootstrap_type
      ∷ build_string pkt.topic_id
      ∷ build_string pkt.sender_node_id
      ∷ build_uint bits64 pkt.timestamp_us
      ∷ []

  -- meridian_channel_bootstrap_encode and meridian_channel_bootstrap_decode
  unfoldable pub encode_bootstrap : Bootstrap → Option Item
  encode_bootstrap pkt = push_all api (new_array 4) (bootstrap_items pkt)

  unfoldable pub decode_bootstrap : ℕ → ℕ → Item → Outcome Bootstrap
  decode_bootstrap topic_buf_size node_id_buf_size item = do
    items ← array_of api item 4
    read_type items bootstrap_type
    topic ← read_string items 1 topic_buf_size
    node ← read_string items 2 node_id_buf_size
    timestamp ← read_uint items 3 bits64
    done (record { topic_id = topic; sender_node_id = node; timestamp_us = timestamp })

  abbrev pub seed_items : ℕ × ℕ → List Item
  seed_items (addr, port) = build_uint bits32 addr ∷ build_uint bits16 port ∷ []

  abbrev pub reply_items : BootstrapReply → List Item
  reply_items pkt =
      build_uint bits8 bootstrap_reply_type
      ∷ build_string pkt.topic_id
      ∷ build_string pkt.responder_node_id
      ∷ build_uint bits32 pkt.responder_addr
      ∷ build_uint bits16 pkt.responder_port
      ∷ build_uint bits64 pkt.timestamp_us
      ∷ []

  -- meridian_channel_bootstrap_reply_encode
  unfoldable pub encode_reply : BootstrapReply → Option Item
  encode_reply pkt = and_then (push_all api (new_array 7) (reply_items pkt)) λ array.
      and_then (push_arrays api (new_array (length pkt.seeds)) (map seed_items pkt.seeds))
        λ seeds. push array seeds

  -- The loop over the seeds, with room for `n` more.
  unfoldable pub decode_seeds : ℕ → List Item → Outcome (List (ℕ × ℕ))
  decode_seeds zero items = done []
  decode_seeds (suc n) [] = done []
  decode_seeds (suc n) (seed ∷ items) = do
    definite ← is_definite seed
    guard definite
    size ← array_size seed
    guard (leb 2 size)
    pair ← array_items seed
    first ← item_at pair 0
    second ← item_at pair 1
    guard (is_uint first && is_uint second)
    addr ← get_uint bits32 first
    port ← get_uint bits16 second
    rest ← decode_seeds n items
    done ((addr, port) ∷ rest)

  -- meridian_channel_bootstrap_reply_decode
  unfoldable pub decode_reply : ℕ → ℕ → ℕ → Item → Outcome BootstrapReply
  decode_reply topic_buf_size node_id_buf_size max_seeds item = do
    items ← array_of api item 7
    read_type items bootstrap_reply_type
    topic ← read_string items 1 topic_buf_size
    node ← read_string items 2 node_id_buf_size
    addr ← read_uint items 3 bits32
    port ← read_uint items 4 bits16
    timestamp ← read_uint items 5 bits64
    last ← item_at items 6
    seeds ←
        (if is_array last
          then (array_items last >>= λ cells. decode_seeds max_seeds cells)
          else done [])
    done (record {
      topic_id = topic;
      responder_node_id = node;
      responder_addr = addr;
      responder_port = port;
      timestamp_us = timestamp;
      seeds = seeds;
    })

  abbrev pub notice_items : DeleteNotice → List Item
  notice_items notice =
      build_uint bits8 delete_notice_type
      ∷ build_string notice.topic_id
      ∷ build_string notice.node_id
      ∷ build_string notice.key_type
      ∷ build_bytestring notice.public_key
      ∷ build_uint bits64 notice.timestamp_us
      ∷ build_bytestring notice.signature
      ∷ []

  -- meridian_channel_delete_notice_encode
  unfoldable pub encode_delete_notice : DeleteNotice → Option Item
  encode_delete_notice notice = push_all api (new_array 7) (notice_items notice)

  -- The kinds of the seven items.
  abbrev pub has_kinds : List Item → Outcome Bool
  has_kinds items = do
    a ← item_at items 0
    b ← item_at items 1
    c ← item_at items 2
    d ← item_at items 3
    e ← item_at items 4
    f ← item_at items 5
    g ← item_at items 6
    done (
        is_uint a
        && is_string b
        && is_string c
        && is_string d
        && is_bytestring e
        && is_uint f
        && is_bytestring g)

  abbrev pub read_bytestring : List Item → ℕ → ℕ → Outcome (List ℕ)
  read_bytestring items i buf_size = do
    item ← item_at items i
    bytes ← bytestring_bytes item
    guard (leb (length bytes) buf_size)
    done bytes

  -- meridian_channel_delete_notice_decode, with the sizes of the fields of the notice. The strings are
  -- tested for their kind once more, with the same answer.
  unfoldable pub decode_delete_notice : Item → Outcome DeleteNotice
  decode_delete_notice item = do
    guard (is_array item)
    size ← array_size item
    guard (size == 7)
    items ← array_items item
    kinds ← has_kinds items
    guard kinds
    first ← item_at items 0
    notice_type ← get_uint bits8 first
    topic ← read_string items 1 64
    node ← read_string items 2 64
    key_type ← read_string items 3 16
    public_key ← read_bytestring items 4 64
    stamp ← item_at items 5
    timestamp ← get_uint bits64 stamp
    signature ← read_bytestring items 6 64
    done (record {
      notice_type = notice_type;
      topic_id = topic;
      node_id = node;
      key_type = key_type;
      public_key = public_key;
      timestamp_us = timestamp;
      signature = signature;
    })
