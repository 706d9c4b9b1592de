-- ===== src/Ids/Format.antt =====
-- The byte format of identifiers.
use poseidon.Prelude.{ℕ, ◌+◌, ◌*◌, ◌/◌, ◌%◌, ◌^◌, ◌<◌, ◌≡◌, arith}
use poseidon.Ids.{
  MessageId, write_uint32, read_uint32, write_uint64, read_uint64, serialize, deserialize,
}

bytes_of_uint32 :
    (v : ℕ)
    → v < 4294967296
    → v / 16777216 % 256 * 16777216 + v / 65536 % 256 * 65536 + v / 256 % 256 * 256 + v % 256 ≡ v
bytes_of_uint32 v h = omega arith

bytes_of_uint64 :
    (v : ℕ)
    → v < 2 ^ 64
    → read_uint32 (write_uint32 (v / 4294967296 % 4294967296)) 0 * 4294967296
        + read_uint32 (write_uint32 (v % 4294967296)) 0
      ≡ v
bytes_of_uint64 v h = omega (
  arith,
  bytes_of_uint32 (v / 4294967296 % 4294967296) (omega arith),
  bytes_of_uint32 (v % 4294967296) (omega arith),
)

id_ext : (a b : MessageId) → a.time ≡ b.time → a.nanos ≡ b.nanos → a.count ≡ b.count → a ≡ b
id_ext a b h k l = ground (arith, h, k, l)

-- An identifier with fields below 2 ^ 64 is read back from the 24 bytes it is written to.
pub deserialize-serialize :
    (id : MessageId)
    → id.time < 2 ^ 64
    → id.nanos < 2 ^ 64
    → id.count < 2 ^ 64
    → deserialize (serialize id) ≡ id
unfolding deserialize serialize read_uint64 write_uint64
deserialize-serialize id h k l =
    id_ext (deserialize (serialize id)) id (bytes_of_uint64 id.time h) (bytes_of_uint64 id.nanos k)
      (bytes_of_uint64 id.count l)
