-- ===== src/Subtopic.antt =====
-- src/Channel/subtopic.c: paths of subtopics, prefix matching, and the table of subscriptions.
-- A C string is the list of its bytes before the terminator, none of which is 0.
pub mod Parse
pub mod Match
pub mod Table
pub mod Expiry
pub mod View
pub mod Capacity
pub mod Refinement
mod Tests
use poseidon.Prelude.{
  ℕ, zero, suc, ◌+◌, ◌-◌, List, [], ◌∷◌, ◌++◌, Bool, true, false, Option, none, some, ltb, leb,
  ◌==◌, if◌then◌else◌, length, get_or, set, take, same_bytes, ◌>>=◌,
}
use poseidon.Prelude.Entries.{find, swap_remove}

-- SUBTOPIC_SEPARATOR, SUBTOPIC_MAX_PART_LEN, SUBTOPIC_TABLE_MAX_SUBS and the size of `path`.
abbrev pub separator : ℕ
separator = b'/'

abbrev pub max_part_len : ℕ
max_part_len = 64

abbrev pub max_subs : ℕ
max_subs = 64

abbrev pub path_size : ℕ
path_size = 512

-- What subtopic_parse does with the segment that ends here: an error, or the parts so far.
abbrev pub push_part : List (List ℕ) → List ℕ → Option (List (List ℕ))
push_part parts segment =
    if leb max_part_len (length segment)
    then none
    else if ltb 0 (length segment)
    then some (parts ++ segment ∷ [])
    else some parts

-- The loop of subtopic_parse and the last segment: `segment` is the text from `start` to `p`.
unfoldable pub parse_loop : ℕ → List ℕ → List ℕ → List (List ℕ) → Option (List (List ℕ))
parse_loop max_parts [] segment parts =
    if ltb (length parts) max_parts then push_part parts segment else some parts
parse_loop max_parts (c ∷ rest) segment parts =
    if ltb (length parts) max_parts
    then elim (c == separator) [
      | true ↦ push_part parts segment >>= parse_loop max_parts rest []
      | false ↦ parse_loop max_parts rest (segment ++ c ∷ []) parts
    ]
    else some parts

-- subtopic_parse for pointers that are not NULL: `none` is -1, else the parts that were written.
unfoldable pub parse : List ℕ → ℕ → Option (List (List ℕ))
parse path max_parts =
    if max_parts == 0
    then none
    else if length path == 0
    then some []
    else parse_loop max_parts path [] []

-- The loop of subtopic_matches that drops separators at the end of the subscription.
unfoldable pub trimmed_length : List ℕ → ℕ → ℕ
trimmed_length subscription zero = zero
trimmed_length subscription (suc n) =
    if get_or subscription n 0 == separator then trimmed_length subscription n else suc n

-- subtopic_matches
unfoldable pub matches : List ℕ → List ℕ → Bool
matches message subscription =
    if length subscription == 0
    then true
    else (let sub_len = trimmed_length subscription (length subscription) in
        if ltb (length message) sub_len
        then false
        else if same_bytes (take sub_len message) (take sub_len subscription)
        then (if length message == sub_len then true else get_or message sub_len 0 == separator)
        else false)

-- `subtopic_entry_t`
pub record Entry : Type 0 where
  pub path : List ℕ
  pub ttl : ℕ

-- `subtopic_table_t`. The field `count` is the length of `entries`.
abbrev pub Table : Type 0
Table = List Entry

-- `strcmp(entry.path, path) == 0`
abbrev pub is_at : List ℕ → Entry → Bool
is_at path e = same_bytes e.path path

-- An entry that stands for one out of range; it is never read.
abbrev pub blank : Entry
blank = record { path = []; ttl = 0 }

-- subtopic_table_create
abbrev pub create : Table
create = []

-- subtopic_table_subscribe: whether it returns 0, and the table. `strncpy` into a cleared entry, or
-- one that it fills with zeros, keeps the first 511 bytes.
unfoldable pub subscribe : Table → List ℕ → ℕ → Bool × Table
subscribe table path ttl = elim (find (is_at path) table) [
  | some i ↦ (true, set table i (record { path = (get_or table i blank).path; ttl = ttl }))
  | none ↦
      if leb max_subs (length table)
      then (false, table)
      else (true, table ++ record { path = take (path_size - 1) path; ttl = ttl } ∷ [])
]

-- subtopic_table_unsubscribe
unfoldable pub unsubscribe : Table → List ℕ → Bool × Table
unsubscribe table path = elim (find (is_at path) table) [
  | some i ↦ (true, swap_remove blank table i)
  | none ↦ (false, table)
]

-- subtopic_table_is_subscribed
unfoldable pub is_subscribed : Table → List ℕ → Bool
is_subscribed table path = elim (find (is_at path) table) [ some i ↦ true | none ↦ false ]

-- subtopic_table_should_deliver
unfoldable pub should_deliver : Table → List ℕ → Bool
should_deliver table message = elim (find (λ (e : Entry). matches message e.path) table) [
  | some i ↦ true
  | none ↦ false
]

-- subtopic_table_tick: entries are compacted in place, in their order.
unfoldable pub tick : Table → Table
tick [] = []
tick (e ∷ rest) =
    let kept = tick rest in
    if ltb 0 e.ttl
    then (if ltb 0 (e.ttl - 1) then record e { ttl = e.ttl - 1 } ∷ kept else kept)
    else kept
