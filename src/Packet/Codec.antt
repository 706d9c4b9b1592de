-- ===== src/Packet/Codec.antt =====
-- Packets that are read back from the items they are written to.
use poseidon.Prelude.{
  ℕ, zero, suc, ◌/◌, ◌%◌, ◌^◌, ◌≤◌, ◌<◌, ◌≡◌, refl, some, List, [], ◌∷◌, ◌++◌, arith, length, map,
  length-map, ◌==◌, take, if◌then◌else◌,
}
use poseidon.Prelude.Outcome.{refused, done}
use poseidon.Cbor.{Cbor, bits8, bits16, bits32, bits64}
use poseidon.Cbor.Laws.{CborLaws, new_array-IsArray, push_all-IsArray, push-IsArray}
use poseidon.Packet.Relay.{
  AddrResponse, Punch, addr_response_type, addr_response_items, encode_addr_response,
  decode_addr_response, punch_items, encode_punch, decode_punch,
}
use poseidon.Packet.Channel.{
  Bootstrap, BootstrapReply, DeleteNotice, bootstrap_type, bootstrap_reply_type, delete_notice_type,
  bootstrap_items, encode_bootstrap, decode_bootstrap, seed_items, reply_items, encode_reply,
  decode_seeds, decode_reply, notice_items, encode_delete_notice, decode_delete_notice, read_string,
  read_bytestring,
}
use poseidon.Packet.Arrays.{join_id_lem, array_of_lem, get_lem, AreArrays, push_arrays-IsArray}

-- Seeds of 32 and 16 bits.
abbrev pub AllSeeds : List (ℕ × ℕ) → Type 0
AllSeeds [] = zero ≡ zero
AllSeeds ((addr, port) ∷ seeds) = (addr < 2 ^ 32) × (port < 2 ^ 16) × AllSeeds seeds

-- The fields of a reply fit their types and buffers.
pub record FitsReply (pkt : BootstrapReply) (topic_size node_size : ℕ) : Type 0 where
  pub topic_fits : length pkt.topic_id < topic_size
  pub node_fits : length pkt.responder_node_id < node_size
  pub addr_fits : pkt.responder_addr < 2 ^ 32
  pub port_fits : pkt.responder_port < 2 ^ 16
  pub stamp_fits : pkt.timestamp_us < 2 ^ 64
  pub seeds_fit : AllSeeds pkt.seeds

-- The fields of a notice fit it.
pub record FitsNotice (notice : DeleteNotice) : Type 0 where
  pub type_lem : notice.notice_type ≡ delete_notice_type
  pub topic_fits : length notice.topic_id < 64
  pub node_fits : length notice.node_id < 64
  pub key_type_fits : length notice.key_type < 16
  pub key_fits : length notice.public_key ≤ 64
  pub stamp_fits : notice.timestamp_us < 2 ^ 64
  pub signature_fits : length notice.signature ≤ 64

module _ (api : Cbor) (laws : CborLaws api) where
  open api use {Item, build_uint, new_array, build_string, build_bytestring}

  -- An answer of its own type, with fields that fit, is encoded and read back.
  pub decode-encode_addr_response :
      (pkt : AddrResponse)
      → pkt.packet_type ≡ addr_response_type
      → pkt.query_id < 2 ^ 64
      → pkt.reflexive_addr < 2 ^ 32
      → pkt.reflexive_port < 2 ^ 16
      → pkt.endpoint_id < 2 ^ 32
      → (a : Item) × (encode_addr_response api pkt ≡ some a)
        × (decode_addr_response api a ≡ done pkt)
  unfolding encode_addr_response decode_addr_response
  decode-encode_addr_response pkt known id_fits addr_fits port_fits endpoint_fits =
      let (a, made, h) =
        push_all-IsArray api laws (new_array 6) 6 [] (addr_response_items api pkt)
          (new_array-IsArray api laws 6) (omega arith) in
      (
        a,
        made,
        rw
            (
              array_of_lem api laws a 6 6 (addr_response_items api pkt) h (omega arith),
              get_lem api laws bits8 pkt.packet_type (omega (arith, known)),
              get_lem api laws bits64 (pkt.query_id / 2 ^ 32) (omega arith),
              get_lem api laws bits64 (pkt.query_id % 2 ^ 32) (omega arith),
              get_lem api laws bits32 pkt.reflexive_addr addr_fits,
              get_lem api laws bits16 pkt.reflexive_port port_fits,
              get_lem api laws bits32 pkt.endpoint_id endpoint_fits,
              join_id_lem pkt.query_id id_fits,
            )
            (ground (arith, known)),
      )

  -- A punch packet with fields that fit is encoded, and read back by the decoder that expects its type.
  pub decode-encode_punch :
      (pkt : Punch) (expected : ℕ)
      → pkt.packet_type < 2 ^ 8
      → pkt.query_id < 2 ^ 64
      → pkt.from_endpoint_id < 2 ^ 32
      → pkt.addr < 2 ^ 32
      → pkt.port < 2 ^ 16
      → (a : Item) × (encode_punch api pkt ≡ some a)
        × (decode_punch api expected a
            ≡ (if pkt.packet_type == expected then done pkt else refused))
  unfolding encode_punch decode_punch
  decode-encode_punch pkt expected type_fits id_fits endpoint_fits addr_fits port_fits =
      let (a, made, h) =
        push_all-IsArray api laws (new_array 6) 6 [] (punch_items api pkt)
          (new_array-IsArray api laws 6) (omega arith) in
      (
        a,
        made,
        rw
            (
              array_of_lem api laws a 6 6 (punch_items api pkt) h (omega arith),
              get_lem api laws bits8 pkt.packet_type type_fits,
              get_lem api laws bits64 (pkt.query_id / 2 ^ 32) (omega arith),
              get_lem api laws bits64 (pkt.query_id % 2 ^ 32) (omega arith),
              get_lem api laws bits32 pkt.from_endpoint_id endpoint_fits,
              get_lem api laws bits32 pkt.addr addr_fits,
              get_lem api laws bits16 pkt.port port_fits,
              join_id_lem pkt.query_id id_fits,
            )
            (ground arith),
      )

  string_step :
      (s : List ℕ) (size : ℕ)
      → length s < size
      → read_string api (build_string s ∷ []) 0 size ≡ done s
  string_step s size h = rw ((laws.string_lem s).1, (laws.string_lem s).0) (ground (arith, h))

  -- A bootstrap whose strings fit their buffers is encoded and read back.
  pub decode-encode_bootstrap :
      (pkt : Bootstrap) (topic_buf_size node_id_buf_size : ℕ)
      → length pkt.topic_id < topic_buf_size
      → length pkt.sender_node_id < node_id_buf_size
      → pkt.timestamp_us < 2 ^ 64
      → (a : Item) × (encode_bootstrap api pkt ≡ some a)
        × (decode_bootstrap api topic_buf_size node_id_buf_size a ≡ done pkt)
  unfolding encode_bootstrap decode_bootstrap
  decode-encode_bootstrap pkt topic_size node_size topic_fits node_fits stamp_fits =
      let (a, made, h) =
        push_all-IsArray api laws (new_array 4) 4 [] (bootstrap_items api pkt)
          (new_array-IsArray api laws 4) (omega arith) in
      (
        a,
        made,
        rw
            (
              array_of_lem api laws a 4 4 (bootstrap_items api pkt) h (omega arith),
              (laws.uint_lem bits8 bootstrap_type (omega arith)).1,
              get_lem api laws bits8 bootstrap_type (omega arith),
              string_step pkt.topic_id topic_size topic_fits,
              string_step pkt.sender_node_id node_size node_fits,
              (laws.uint_lem bits64 pkt.timestamp_us stamp_fits).1,
              get_lem api laws bits64 pkt.timestamp_us stamp_fits,
            )
            refl,
      )

  decode_seeds_lem :
      (n : ℕ) (items : List Item) (seeds : List (ℕ × ℕ))
      → AreArrays api laws items (map (seed_items api) seeds)
      → AllSeeds seeds
      → decode_seeds api n items ≡ done (take n seeds)
  unfolding decode_seeds
  decode_seeds_lem zero items seeds h fits = refl
  decode_seeds_lem (suc n) [] [] h fits = refl
  decode_seeds_lem (suc n) [] (seed ∷ seeds) h fits = absurd (omega arith)
  decode_seeds_lem (suc n) (item ∷ items) [] h fits = absurd (omega arith)
  decode_seeds_lem (suc n) (item ∷ items) ((addr, port) ∷ seeds) (is_seed, h)
        (addr_fits, port_fits, fits) =
      rw
        (
          is_seed.definite,
          (laws.size_lem item (seed_items api (addr, port)) is_seed.holds).0,
          is_seed.holds,
          (laws.uint_lem bits32 addr addr_fits).1,
          (laws.uint_lem bits16 port port_fits).1,
          get_lem api laws bits32 addr addr_fits,
          get_lem api laws bits16 port port_fits,
          decode_seeds_lem n items seeds h fits,
        )
        refl

  -- The reply to a bootstrap whose strings fit their buffers and whose numbers fit their types is
  -- encoded, and read back with as many of its seeds as there is room for.
  pub decode-encode_reply :
      (pkt : BootstrapReply) (topic_buf_size node_id_buf_size max_seeds : ℕ)
      → FitsReply pkt topic_buf_size node_id_buf_size
      → (a : Item) × (encode_reply api pkt ≡ some a)
        × (decode_reply api topic_buf_size node_id_buf_size max_seeds a
            ≡ done (record pkt { seeds = take max_seeds pkt.seeds }))
  unfolding encode_reply decode_reply
  decode-encode_reply pkt topic_size node_size max_seeds fits =
      let n : ℕ = length pkt.seeds in
      let (a, made, is_head) =
        push_all-IsArray api laws (new_array 7) 7 [] (reply_items api pkt)
          (new_array-IsArray api laws 7) (omega arith) in
      let (s, items, listed, is_seeds, arrays) =
        push_arrays-IsArray api laws (new_array n) n [] (map (seed_items api) pkt.seeds)
          (new_array-IsArray api laws n) (omega (arith, length-map (seed_items api) pkt.seeds)) in
      let (b, pushed, h) =
        push-IsArray api laws a s 7 (reply_items api pkt) is_head (omega arith) in
      (
        b,
        rw (made, listed) pushed,
        rw
            (
              array_of_lem api laws b 7 7 (reply_items api pkt ++ s ∷ []) h (omega arith),
              (laws.uint_lem bits8 bootstrap_reply_type (omega arith)).1,
              get_lem api laws bits8 bootstrap_reply_type (omega arith),
              string_step pkt.topic_id topic_size fits.topic_fits,
              string_step pkt.responder_node_id node_size fits.node_fits,
              (laws.uint_lem bits32 pkt.responder_addr fits.addr_fits).1,
              get_lem api laws bits32 pkt.responder_addr fits.addr_fits,
              (laws.uint_lem bits16 pkt.responder_port fits.port_fits).1,
              get_lem api laws bits16 pkt.responder_port fits.port_fits,
              (laws.uint_lem bits64 pkt.timestamp_us fits.stamp_fits).1,
              get_lem api laws bits64 pkt.timestamp_us fits.stamp_fits,
              (laws.size_lem s items is_seeds.holds).1,
              is_seeds.holds,
              decode_seeds_lem max_seeds items pkt.seeds arrays fits.seeds_fit,
            )
            refl,
      )

  bytestring_step :
      (s : List ℕ) (size : ℕ)
      → length s ≤ size
      → read_bytestring api (build_bytestring s ∷ []) 0 size ≡ done s
  bytestring_step s size h = rw ((laws.bytestring_lem s).0) (ground (arith, h))

  -- A notice of deletion whose fields fit is encoded, and read back as it was.
  pub decode-encode_delete_notice :
      (notice : DeleteNotice)
      → FitsNotice notice
      → (a : Item) × (encode_delete_notice api notice ≡ some a)
        × (decode_delete_notice api a ≡ done notice)
  unfolding encode_delete_notice decode_delete_notice
  decode-encode_delete_notice notice fits =
      let items : List Item = notice_items api notice in
      let (a, made, h) =
        push_all-IsArray api laws (new_array 7) 7 [] items (new_array-IsArray api laws 7)
          (omega arith) in
      (
        a,
        made,
        rw
            (
              (laws.size_lem a items h.holds).1,
              (laws.size_lem a items h.holds).0,
              h.holds,
              (laws.uint_lem bits8 delete_notice_type (omega arith)).1,
              (laws.string_lem notice.topic_id).1,
              (laws.string_lem notice.node_id).1,
              (laws.string_lem notice.key_type).1,
              (laws.bytestring_lem notice.public_key).1,
              (laws.uint_lem bits64 notice.timestamp_us fits.stamp_fits).1,
              (laws.bytestring_lem notice.signature).1,
              get_lem api laws bits8 delete_notice_type (omega arith),
              (laws.string_lem notice.topic_id).0,
              (laws.string_lem notice.node_id).0,
              (laws.string_lem notice.key_type).0,
              bytestring_step notice.public_key 64 fits.key_fits,
              get_lem api laws bits64 notice.timestamp_us fits.stamp_fits,
              bytestring_step notice.signature 64 fits.signature_fits,
            )
            (ground (arith, fits)),
      )
