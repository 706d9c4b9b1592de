-- ===== src/Wire/Reading.antt =====
-- The decoder on the parts that a message is written as.
use poseidon.Prelude.{
  ℕ, ◌+◌, ◌*◌, ◌%◌, ◌^◌, ◌≤◌, ◌<◌, ◌≡◌, refl, sym, ap, ◌&&◌, List, [], ◌∷◌, arith, leb, length,
  get_or, drop, AllBelow, length-append,
}
use poseidon.Prelude.Outcome.{Outcome, done, ◌>>=◌, ◌>>◌, guard}
use poseidon.Bloom
use poseidon.Bloom.{byte_size}
use poseidon.Ids
use poseidon.Ids.{MessageId}
use poseidon.Ids.Format
use poseidon.Wire.{
  RouteMessage, header, write_words, write_addrs, write_ports, deserialize, word, read_body,
  expected_size, max_payload_size, max_nodes,
}
use poseidon.Wire.Fields.{
  AllPeers, word-write_words, length-write_words, length-write_addrs, length-write_ports,
  read_publishers-write,
}
use poseidon.Wire.Safety.{expected_size_lem, byte_size_lem}
use poseidon.Wire.Parts.{join, read_part}

-- The limits of the decoder, and a filter as it is created.
pub record Fits (msg : RouteMessage) : Type 0 where
  pub time_fits : msg.id.time < 2 ^ 64
  pub nanos_fits : msg.id.nanos < 2 ^ 64
  pub count_fits : msg.id.count < 2 ^ 64
  pub topic_fits : length msg.topic ≤ 1400
  pub payload_fits : length msg.payload ≤ 1400
  pub hops_fit : msg.hops_remaining < 2 ^ 32
  pub publishers_fit : length msg.publishers ≤ 256
  pub peers_fit : AllPeers msg.publishers
  pub size_fits : msg.visited.size < 2 ^ 32
  pub hashes_fit : msg.visited.hash_count < 2 ^ 32
  pub whole : length msg.visited.bits.bytes ≡ byte_size msg.visited.size
  pub first_seed : msg.visited.seed_a ≡ 1
  pub second_seed : msg.visited.seed_b ≡ 2

abbrev pub parts_of : RouteMessage → List (List ℕ)
parts_of msg =
    write_words (header msg)
    ∷ Ids.serialize msg.id
    ∷ msg.topic
    ∷ msg.payload
    ∷ write_addrs msg.publishers
    ∷ write_ports msg.publishers
    ∷ msg.visited.bits.bytes
    ∷ []

-- The message that a node reads: the filter forgets how often it grew.
abbrev pub received : RouteMessage → RouteMessage
received msg = record msg { visited = record msg.visited { count = 0 } }

visited_lem :
    (f : Bloom.Filter)
    → f.seed_a ≡ 1
    → f.seed_b ≡ 2
    → record (Bloom.create f.size f.hash_count) { bits = record { bytes = f.bits.bytes } }
      ≡ record f { count = 0 }
unfolding Bloom.create
visited_lem f h k = ground (arith, h, k)

length-serialize_id : (id : MessageId) → length (Ids.serialize id) ≡ 24
unfolding Ids.serialize Ids.write_uint64
length-serialize_id id = refl

word_lem : (v : ℕ) → v < 2 ^ 32 → v % 2 ^ 32 ≡ v
word_lem v h = omega arith

-- Where the lengths are within the limits, every test passes.
checked_lem :
    (bytes : List ℕ) (t d hops n size hashes : ℕ) (msg : RouteMessage)
    → t ≤ 1400
    → d ≤ 1400
    → n ≤ 256
    → size < 2 ^ 32
    → 56 + t + d + n * 4 + n * 2 + byte_size size ≤ length bytes
    → read_body bytes t d hops n size hashes ≡ done msg
    → (do
      guard (leb 32 (length bytes))
      guard (leb (t % 2 ^ 32) max_payload_size && leb (d % 2 ^ 32) max_payload_size)
      guard (leb n max_nodes)
      expected ← expected_size (t % 2 ^ 32) (d % 2 ^ 32) n (byte_size (size % 2 ^ 32))
      guard (leb expected (length bytes))
      read_body bytes (t % 2 ^ 32) (d % 2 ^ 32) hops n (size % 2 ^ 32) hashes)
      ≡ done msg
checked_lem bytes t d hops n size hashes msg ht hd hn hs long body =
    rw
      (
        word_lem t (omega arith),
        word_lem d (omega arith),
        word_lem size hs,
        expected_size_lem t d n (byte_size size) (omega arith) (omega arith) (omega arith)
            (byte_size_lem size hs),
        body,
      )
      (ground arith)

header-Fits : (msg : RouteMessage) → Fits msg → AllBelow (2 ^ 32) (header msg)
header-Fits msg fits = (
  omega arith,
  (
    omega arith,
    (
      omega arith,
      (
        omega arith,
        (
          fits.hops_fit,
          (omega (arith, fits.publishers_fit), (omega arith, (fits.hashes_fit, refl))),
        ),
      ),
    ),
  ),
)

module _ (msg : RouteMessage) (rest : List ℕ) (fits : Fits msg) where
  read_body-parts :
      read_body
        (join (parts_of msg) rest)
        (length msg.topic)
        (length msg.payload)
        msg.hops_remaining
        (length msg.publishers)
        msg.visited.size
        msg.visited.hash_count
      ≡ done (received msg)
  unfolding read_body
  read_body-parts =
      let parts : List (List ℕ) = parts_of msg in
      let w : length (write_words (header msg)) ≡ 32 = length-write_words (header msg) in
      let i : length (Ids.serialize msg.id) ≡ 24 = length-serialize_id msg.id in
      let a : length (write_addrs msg.publishers) ≡ length msg.publishers * 4 =
        length-write_addrs msg.publishers in
      let p : length (write_ports msg.publishers) ≡ length msg.publishers * 2 =
        length-write_ports msg.publishers in
      rw
        (
          read_part parts rest 1 32 24 (omega arith) (omega (arith, w)) (sym i),
          read_part parts rest 2 56 (length msg.topic) (omega arith) (omega (arith, w, i)) refl,
          read_part parts rest 3 (56 + length msg.topic) (length msg.payload) (omega arith)
              (omega (arith, w, i)) refl,
          read_part parts rest 4 (56 + length msg.topic + length msg.payload)
              (length msg.publishers * 4) (omega arith) (omega (arith, w, i)) (sym a),
          read_part parts rest 5
              (56 + length msg.topic + length msg.payload + length msg.publishers * 4)
              (length msg.publishers * 2) (omega arith) (omega (arith, w, i, a)) (sym p),
          read_part parts rest 6
              (56
                + length msg.topic
                + length msg.payload
                + length msg.publishers * 4
                + length msg.publishers * 2)
              (byte_size msg.visited.size) (omega arith) (omega (arith, w, i, a, p))
              (sym fits.whole),
          Ids.Format.deserialize-serialize msg.id fits.time_fits fits.nanos_fits fits.count_fits,
          read_publishers-write msg.publishers fits.peers_fit,
        )
        (ap {B = Outcome RouteMessage} (λ (f : Bloom.Filter). done (record msg { visited = f }))
          (visited_lem msg.visited fits.first_seed fits.second_seed))

  length_parts :
      56
        + length msg.topic
        + length msg.payload
        + length msg.publishers * 4
        + length msg.publishers * 2
        + byte_size msg.visited.size
      ≤ length (join (parts_of msg) rest)
  length_parts =
      rw
        (
          length-append (write_words (header msg)) (join (drop 1 (parts_of msg)) rest),
          length-append (Ids.serialize msg.id) (join (drop 2 (parts_of msg)) rest),
          length-append msg.topic (join (drop 3 (parts_of msg)) rest),
          length-append msg.payload (join (drop 4 (parts_of msg)) rest),
          length-append (write_addrs msg.publishers) (join (drop 5 (parts_of msg)) rest),
          length-append (write_ports msg.publishers) (join (drop 6 (parts_of msg)) rest),
          length-append msg.visited.bits.bytes rest,
        )
        (omega (
          arith,
          length-write_words (header msg),
          length-serialize_id msg.id,
          length-write_addrs msg.publishers,
          length-write_ports msg.publishers,
          fits.whole,
        ))

  pub deserialize-parts : deserialize (join (parts_of msg) rest) ≡ done (received msg)
  unfolding deserialize
  deserialize-parts =
      let tail : List ℕ = join (drop 1 (parts_of msg)) rest in
      let words : (i : ℕ)
          → i < 8
          → word (join (parts_of msg) rest) i ≡ done (get_or (header msg) i 0) =
        λ i. word-write_words (header msg) tail i (header-Fits msg fits) in
      rw
        (
          words 0 (omega arith),
          words 1 (omega arith),
          words 2 (omega arith),
          words 3 (omega arith),
          words 4 (omega arith),
          words 5 (omega arith),
          words 6 (omega arith),
          words 7 (omega arith),
        )
        (checked_lem (join (parts_of msg) rest) (length msg.topic) (length msg.payload)
          msg.hops_remaining (length msg.publishers) msg.visited.size msg.visited.hash_count
          (received msg) fits.topic_fits fits.payload_fits fits.publishers_fit fits.size_fits
          length_parts read_body-parts)
