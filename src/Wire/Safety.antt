-- ===== src/Wire/Safety.antt =====
-- No input makes the decoder read past its end.
use poseidon.Prelude.{
  ℕ, ◌+◌, ◌*◌, ◌%◌, ◌^◌, ◌≤◌, ◌<◌, ◌≡◌, refl, ap, true, ◌&&◌, List, arith, leb, ◌==◌, length, take,
  drop, AllBytes, leb→le,
}
use poseidon.Prelude.Outcome.{
  done, ◌>>=◌, ◌>>◌, guard, is_safe, is_safe-guard, read_bytes, read_bytes-fits,
}
use poseidon.Bloom.{byte_size}
use poseidon.Wire.{
  deserialize, expected_size, read_body, max_payload_size, max_nodes, route_magic, route_version,
}
use poseidon.Wire.Fields.{word-fits, word_lt}
use poseidon.Ids.{read_uint32}

mod_lem : (v : ℕ) → v < 2 ^ 64 → v % 2 ^ 64 ≡ v
mod_lem v h = omega arith

-- For lengths within the limits no sum wraps.
pub expected_size_lem :
    (topic_len data_len pub_count visited_bit_bytes : ℕ)
    → topic_len < 2 ^ 32
    → data_len < 2 ^ 32
    → pub_count < 2 ^ 32
    → visited_bit_bytes < 2 ^ 32
    → expected_size topic_len data_len pub_count visited_bit_bytes
      ≡ done (56 + topic_len + data_len + pub_count * 4 + pub_count * 2 + visited_bit_bytes)
unfolding expected_size
expected_size_lem t d n v ht hd hn hv =
    rw
      (
        mod_lem (56 + t + d) (omega arith),
        mod_lem (n * 4) (omega arith),
        mod_lem (n * 2) (omega arith),
        mod_lem (56 + t + d + n * 4) (omega arith),
        mod_lem (56 + t + d + n * 4 + n * 2) (omega arith),
        mod_lem (56 + t + d + n * 4 + n * 2 + v) (omega arith),
      )
      (ground arith)

read_bytes_safe :
    (bytes : List ℕ) (offset n : ℕ)
    → offset + n ≤ length bytes
    → is_safe (read_bytes bytes offset n) ≡ true
read_bytes_safe bytes offset n h = ap is_safe (read_bytes-fits bytes offset n h)

read_body_safe :
    (bytes : List ℕ) (t d hops n size hashes : ℕ)
    → 56 + t + d + n * 4 + n * 2 + byte_size size ≤ length bytes
    → is_safe (read_body bytes t d hops n size hashes) ≡ true
unfolding read_body
read_body_safe bytes t d hops n size hashes h =
    rw
      (
        read_bytes-fits bytes 32 24 (omega arith),
        read_bytes-fits bytes 56 t (omega arith),
        read_bytes-fits bytes (56 + t) d (omega arith),
        read_bytes-fits bytes (56 + t + d) (n * 4) (omega arith),
        read_bytes-fits bytes (56 + t + d + n * 4) (n * 2) (omega arith),
        read_bytes-fits bytes (56 + t + d + n * 4 + n * 2) (byte_size size) (omega arith),
      )
      refl

abbrev word_at : List ℕ → ℕ → ℕ
word_at bytes i = read_uint32 (take 4 (drop (4 * i) bytes)) 0

pub byte_size_lem : (size : ℕ) → size < 2 ^ 32 → byte_size size < 2 ^ 32
byte_size_lem size h = ground arith

-- The tests of the lengths cover every read of the body.
checked_safe :
    (bytes : List ℕ) (magic version t d hops n size hashes : ℕ)
    → size < 2 ^ 32
    → is_safe (do
      guard (magic == route_magic && version == route_version)
      guard (leb t max_payload_size && leb d max_payload_size)
      guard (leb n max_nodes)
      expected ← expected_size t d n (byte_size size)
      guard (leb expected (length bytes))
      read_body bytes t d hops n size hashes)
      ≡ true
checked_safe bytes magic version t d hops n size hashes h =
    is_safe-guard (magic == route_magic && version == route_version) _ (λ known.
      is_safe-guard (leb t max_payload_size && leb d max_payload_size) _ (λ small.
        is_safe-guard (leb n max_nodes) _ (λ few.
          rw
            (expected_size_lem t d n (byte_size size) (ground (arith, small))
              (ground (arith, small)) (ground (arith, few)) (byte_size_lem size h))
            (is_safe-guard (leb (56 + t + d + n * 4 + n * 2 + byte_size size) (length bytes)) _
              (λ fits.
                read_body_safe bytes t d hops n size hashes (leb→le _ (length bytes) fits))))))

-- Whatever bytes arrive, the decoder of routed messages refuses them or reads a message, and never
-- reads past their end.
pub deserialize_safe : (bytes : List ℕ) → AllBytes bytes → is_safe (deserialize bytes) ≡ true
unfolding deserialize
deserialize_safe bytes all = is_safe-guard (leb 32 (length bytes)) _ (λ enough.
    let long : 32 ≤ length bytes = leb→le 32 (length bytes) enough in
    rw
      (
        word-fits bytes 0 (omega arith),
        word-fits bytes 1 (omega arith),
        word-fits bytes 2 (omega arith),
        word-fits bytes 3 (omega arith),
        word-fits bytes 4 (omega arith),
        word-fits bytes 5 (omega arith),
        word-fits bytes 6 (omega arith),
        word-fits bytes 7 (omega arith),
      )
      (checked_safe bytes (word_at bytes 0) (word_at bytes 1) (word_at bytes 2) (word_at bytes 3)
        (word_at bytes 4) (word_at bytes 5) (word_at bytes 6) (word_at bytes 7)
        (word_lt bytes 6 all)))
