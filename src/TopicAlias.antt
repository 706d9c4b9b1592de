-- ===== src/TopicAlias.antt =====
-- src/Channel/topic_alias.c: the registry of names for topics. A name may stand for several topics.
-- A C string is the list of its bytes before the terminator; a candidate is the topic it points at.
pub mod Laws
mod Tests
use poseidon.Prelude.{
  ℕ, suc, ◌+◌, ◌-◌, List, [], ◌∷◌, ◌++◌, Bool, true, false, Option, none, some, ltb, leb, ◌==◌,
  if◌then◌else◌, length, get_or, take, same_bytes,
}
use poseidon.Prelude.Entries.{find, swap_remove}

-- TOPIC_ALIAS_MAX_NAME, TOPIC_ALIAS_MAX_TOPIC, TOPIC_ALIAS_MAX_CANDIDATES
abbrev pub max_name : ℕ
max_name = 64

abbrev pub max_topic : ℕ
max_topic = 64

abbrev pub max_candidates : ℕ
max_candidates = 8

-- `topic_alias_entry_t`
pub record Entry : Type 0 where
  pub name : List ℕ
  pub topic : List ℕ

-- `topic_alias_registry_t`. The field `count` is the length of `entries`.
pub record Registry : Type 0 where
  pub entries : List Entry
  pub capacity : ℕ

-- topic_alias_registry_create
unfoldable pub create : ℕ → Registry
create capacity = record { entries = []; capacity = if capacity == 0 then 16 else capacity }

-- `strcmp(entry.name, name) == 0`
abbrev pub is_named : List ℕ → Entry → Bool
is_named name e = same_bytes e.name name

-- An entry that stands for one out of range; it is never read.
abbrev pub blank : Entry
blank = record { name = []; topic = [] }

-- topic_alias_register: whether it returns 0, and the registry.
unfoldable pub register : Registry → List ℕ → List ℕ → Bool × Registry
register reg name topic = if leb reg.capacity (length reg.entries) then (false, reg) else (
  true,
  record reg {
    entries =
        reg.entries
        ++ record { name = take (max_name - 1) name; topic = take (max_topic - 1) topic } ∷ [];
  },
)

-- topic_alias_unregister
unfoldable pub unregister : Registry → List ℕ → Bool × Registry
unregister reg name = elim (find (is_named name) reg.entries) [
  | some i ↦ (true, record reg { entries = swap_remove blank reg.entries i })
  | none ↦ (false, reg)
]

-- topic_alias_resolve
unfoldable pub resolve : Registry → List ℕ → Option (List ℕ)
resolve reg name = elim (find (is_named name) reg.entries) [
  | some i ↦ some (get_or reg.entries i blank).topic
  | none ↦ none
]

-- `topic_alias_resolve_status_t`
pub data Status : Type 0 where
  not_found : Status
  ok : Status
  ambiguous : Status

-- `topic_alias_resolve_out_t`
pub record Resolution : Type 0 where
  pub status : Status
  pub topic : List ℕ
  pub candidates : List (List ℕ)
  pub num_candidates : ℕ

-- The loop of topic_alias_resolve_ex: the topic, the candidates and `match_count`.
unfoldable pub resolve_loop :
    List ℕ → List Entry → List ℕ → List (List ℕ) → ℕ → List ℕ × List (List ℕ) × ℕ
resolve_loop name [] topic candidates match_count = (topic, candidates, match_count)
resolve_loop name (e ∷ entries) topic candidates match_count =
    if is_named name e
    then resolve_loop name entries
        (if match_count == 0 then take (max_topic - 1) e.topic else topic)
        (if ltb match_count max_candidates then candidates ++ e.topic ∷ [] else candidates)
        (suc match_count)
    else resolve_loop name entries topic candidates match_count

-- topic_alias_resolve_ex
unfoldable pub resolve_ex : Registry → List ℕ → Resolution
resolve_ex reg name =
    let (topic, candidates, match_count) = resolve_loop name reg.entries [] [] 0 in
    record {
      status =
          if match_count == 0
          then Status.not_found
          else if match_count == 1
          then Status.ok
          else Status.ambiguous;
      topic = topic;
      candidates = candidates;
      num_candidates = match_count;
    }
