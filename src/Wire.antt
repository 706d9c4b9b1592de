-- ===== src/Wire.antt =====
-- src/Network/Quasar/quasar_route.c: routed messages as bytes. Words stand in network order, the
-- addresses and ports of the publishers in the order of a little-endian machine.
pub mod Fields
pub mod Safety
pub mod Parts
pub mod Reading
pub mod Codec
mod Tests
use poseidon.Prelude.{
  ℕ, zero, suc, ◌+◌, ◌-◌, ◌*◌, ◌/◌, ◌%◌, ◌^◌, Bool, not, List, [], ◌∷◌, ◌++◌, ltb, leb, ◌==◌,
  if◌then◌else◌, length, get_or, take, drop, ◌&&◌,
}
use poseidon.Prelude.Outcome.{Outcome, refused, overrun, done, guard, ◌>>=◌, ◌>>◌, read_bytes}
use poseidon.Ids
use poseidon.Ids.{MessageId, write_uint32, read_uint32}
use poseidon.Bloom
use poseidon.Bloom.{byte_size}
use poseidon.Quasar.{Peer}

-- QUASAR_ROUTE_MAGIC, QUASAR_ROUTE_VERSION, MERIDIAN_MAX_PAYLOAD_SIZE and MERIDIAN_MAX_NODES
abbrev pub route_magic : ℕ
route_magic = 0x51524F54

abbrev pub route_version : ℕ
route_version = 1

abbrev pub max_payload_size : ℕ
max_payload_size = 1400

abbrev pub max_nodes : ℕ
max_nodes = 256

-- SIZE_MAX
abbrev pub size_max : ℕ
size_max = 2 ^ 64 - 1

-- `quasar_route_message_t`, less its lock and reference count. The publishers are its two arrays, and
-- `pub_count` is their length.
pub record RouteMessage : Type 0 where
  pub id : MessageId
  pub topic : List ℕ
  pub payload : List ℕ
  pub visited : Bloom.Filter
  pub hops_remaining : ℕ
  pub publishers : List Peer

-- The memory of the arrays `pub_addrs` and `pub_ports`.
unfoldable pub write_addrs : List Peer → List ℕ
write_addrs [] = []
write_addrs (p ∷ ps) =
    p.addr % 256
    ∷ p.addr / 256 % 256
    ∷ p.addr / 65536 % 256
    ∷ p.addr / 16777216 % 256
    ∷ write_addrs ps

unfoldable pub write_ports : List Peer → List ℕ
write_ports [] = []
write_ports (p ∷ ps) = p.port % 256 ∷ p.port / 256 % 256 ∷ write_ports ps

-- The arrays of `n` publishers that two blocks of memory hold.
unfoldable pub read_publishers : ℕ → List ℕ → List ℕ → List Peer
read_publishers zero addrs ports = []
read_publishers (suc n) addrs ports =
    record {
      addr =
          get_or addrs 0 0
          + get_or addrs 1 0 * 256
          + get_or addrs 2 0 * 65536
          + get_or addrs 3 0 * 16777216;
      port = get_or ports 0 0 + get_or ports 1 0 * 256;
    }
    ∷ read_publishers n (drop 4 addrs) (drop 2 ports)

-- The eight words of the header; `htonl` takes the low 32 bits.
abbrev pub header : RouteMessage → List ℕ
header msg =
    route_magic
    ∷ route_version
    ∷ length msg.topic % 2 ^ 32
    ∷ length msg.payload % 2 ^ 32
    ∷ msg.hops_remaining
    ∷ length msg.publishers
    ∷ msg.visited.size % 2 ^ 32
    ∷ msg.visited.hash_count
    ∷ []

unfoldable pub write_words : List ℕ → List ℕ
write_words [] = []
write_words (w ∷ ws) = write_uint32 w ++ write_words ws

-- The sums of quasar_route_message_serialize that must not pass SIZE_MAX: the size of the body.
unfoldable pub body_size : ℕ → ℕ → ℕ → ℕ → Outcome ℕ
body_size topic_len data_len pub_count bit_bytes = do
  guard (leb topic_len (size_max - data_len))
  guard (leb (topic_len + data_len) (size_max - 4 * pub_count))
  guard (leb (topic_len + data_len + 4 * pub_count) (size_max - 2 * pub_count))
  guard (leb (topic_len + data_len + 6 * pub_count) (size_max - bit_bytes))
  guard (leb (topic_len + data_len + 6 * pub_count + bit_bytes) (size_max - 24))
  guard (leb (32 + (topic_len + data_len + 6 * pub_count + bit_bytes + 24)) size_max)
  done (topic_len + data_len + 6 * pub_count + bit_bytes + 24)

-- quasar_route_message_serialize
unfoldable pub serialize : RouteMessage → Outcome (List ℕ)
serialize msg = do
  size ←
      body_size (length msg.topic) (length msg.payload) (length msg.publishers)
        (byte_size msg.visited.size)
  bits ← read_bytes msg.visited.bits.bytes 0 (byte_size msg.visited.size)
  done (
      write_words (header msg)
      ++ (Ids.serialize msg.id
          ++ (msg.topic
              ++ (msg.payload
                  ++ (write_addrs msg.publishers ++ (write_ports msg.publishers ++ bits))))))

-- `ntohl(header[i])`
unfoldable pub word : List ℕ → ℕ → Outcome ℕ
word bytes i = read_bytes bytes (4 * i) 4 >>= λ word. done (read_uint32 word 0)

-- What follows the header, from the offset 32. The identifier that the creation of the message takes
-- from the counter is replaced at once, and left out here. The final assertion compares two sums of
-- the same lengths.
unfoldable pub read_body : List ℕ → ℕ → ℕ → ℕ → ℕ → ℕ → ℕ → Outcome RouteMessage
read_body bytes topic_len data_len hops_remaining pub_count visited_size visited_hashes = do
  id ← read_bytes bytes 32 24
  topic ← read_bytes bytes 56 topic_len
  payload ← read_bytes bytes (56 + topic_len) data_len
  addrs ← read_bytes bytes (56 + topic_len + data_len) (pub_count * 4)
  ports ← read_bytes bytes (56 + topic_len + data_len + pub_count * 4) (pub_count * 2)
  bits ←
      read_bytes bytes (56 + topic_len + data_len + pub_count * 4 + pub_count * 2)
        (byte_size visited_size)
  let visited = Bloom.create visited_size visited_hashes
  done (record {
    id = Ids.deserialize id;
    topic = topic;
    payload = payload;
    visited = record visited { bits = record { bytes = bits } };
    hops_remaining = hops_remaining;
    publishers = read_publishers pub_count addrs ports;
  })

-- The size that the header promises, on `size_t`, with the tests for a sum that wraps.
unfoldable pub expected_size : ℕ → ℕ → ℕ → ℕ → Outcome ℕ
expected_size topic_len data_len pub_count visited_bit_bytes = do
  let expected = (56 + topic_len + data_len) % 2 ^ 64
  let pub_addrs_size = pub_count * 4 % 2 ^ 64
  let pub_ports_size = pub_count * 2 % 2 ^ 64
  guard (pub_addrs_size / 4 == pub_count)
  guard (pub_ports_size / 2 == pub_count)
  let with_addrs = (expected + pub_addrs_size) % 2 ^ 64
  guard (leb pub_addrs_size with_addrs)
  let with_ports = (with_addrs + pub_ports_size) % 2 ^ 64
  guard (leb pub_ports_size with_ports)
  let with_bits = (with_ports + visited_bit_bytes) % 2 ^ 64
  guard (leb visited_bit_bytes with_bits)
  done with_bits

-- quasar_route_message_deserialize
unfoldable pub deserialize : List ℕ → Outcome RouteMessage
deserialize bytes = do
  guard (leb 32 (length bytes))
  magic ← word bytes 0
  version ← word bytes 1
  guard (magic == route_magic && version == route_version)
  topic_len ← word bytes 2
  data_len ← word bytes 3
  hops_remaining ← word bytes 4
  pub_count ← word bytes 5
  visited_size ← word bytes 6
  visited_hashes ← word bytes 7
  guard (leb topic_len max_payload_size && leb data_len max_payload_size)
  guard (leb pub_count max_nodes)
  expected ← expected_size topic_len data_len pub_count (byte_size visited_size)
  guard (leb expected (length bytes))
  read_body bytes topic_len data_len hops_remaining pub_count visited_size visited_hashes
