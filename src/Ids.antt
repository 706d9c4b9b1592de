-- ===== src/Ids.antt =====
-- src/Network/Quasar/quasar_message_id.c and src/Workers/transaction_id.c: identifiers made of a time
-- and a counter, with the same fields, order and byte format in both files.
pub mod Order
pub mod Format
mod Tests
use poseidon.Prelude.{
  ℕ, ◌+◌, ◌*◌, ◌/◌, ◌%◌, ◌^◌, List, [], ◌∷◌, ◌++◌, Bool, true, false, ltb, if◌then◌else◌, get_or,
  Ordering,
}

-- `quasar_message_id_t` and `transaction_id_t`
pub record MessageId : Type 0 where
  pub time : ℕ
  pub nanos : ℕ
  pub count : ℕ

-- quasar_message_id_get_next and transaction_id_get_next: the identifier and the counter afterwards,
-- for the time that the clock gives.
unfoldable pub get_next : ℕ → ℕ → ℕ → MessageId × ℕ
get_next seconds nanos counter =
    (record { time = seconds; nanos = nanos; count = counter }, (counter + 1) % 2 ^ 64)

-- quasar_message_id_compare
unfoldable pub compare : MessageId → MessageId → Ordering
compare a b =
    if ltb b.time a.time
    then Ordering.gt
    else if ltb a.time b.time
    then Ordering.lt
    else if ltb b.nanos a.nanos
    then Ordering.gt
    else if ltb a.nanos b.nanos
    then Ordering.lt
    else if ltb b.count a.count
    then Ordering.gt
    else if ltb a.count b.count
    then Ordering.lt
    else Ordering.eq

-- `htonl` of 32 bits, as memory.
abbrev pub write_uint32 : ℕ → List ℕ
write_uint32 v = v / 16777216 % 256 ∷ v / 65536 % 256 ∷ v / 256 % 256 ∷ v % 256 ∷ []

abbrev pub read_uint32 : List ℕ → ℕ → ℕ
read_uint32 buf i =
    get_or buf i 0 * 16777216
    + get_or buf (i + 1) 0 * 65536
    + get_or buf (i + 2) 0 * 256
    + get_or buf (i + 3) 0

-- write_uint64 and read_uint64
unfoldable pub write_uint64 : ℕ → List ℕ
write_uint64 val = write_uint32 (val / 4294967296 % 4294967296) ++ write_uint32 (val % 4294967296)

unfoldable pub read_uint64 : List ℕ → ℕ → ℕ
read_uint64 buf i = read_uint32 buf i * 4294967296 + read_uint32 buf (i + 4)

-- quasar_message_id_serialize and transaction_id_serialize
unfoldable pub serialize : MessageId → List ℕ
serialize id = write_uint64 id.time ++ write_uint64 id.nanos ++ write_uint64 id.count

-- quasar_message_id_deserialize and transaction_id_deserialize
unfoldable pub deserialize : List ℕ → MessageId
deserialize buf = record {
  time = read_uint64 buf 0;
  nanos = read_uint64 buf 8;
  count = read_uint64 buf 16;
}

-- TXN_ID_BATCH_SIZE
abbrev pub batch_size : ℕ
batch_size = 1000

-- transaction_id_advance_to: `g_global_count` and `g_current_txn_id`.
unfoldable pub advance_to : ℕ → MessageId → MessageId → ℕ × MessageId
advance_to counter current target =
    let new_count = (target.count + batch_size) % 2 ^ 64 in
    if ltb counter new_count then (new_count, target) else (counter, current)
