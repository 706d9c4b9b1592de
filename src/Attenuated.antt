-- ===== src/Attenuated.antt =====
-- src/Bloom/attenuated_bloom_filter.c: a stack of elastic filters, level `n` for the topics `n` hops
-- away.
pub mod Routing
mod Tests
use poseidon.Prelude.{
  ℕ, zero, suc, ◌+◌, List, [], ◌∷◌, Bool, true, false, Option, none, some, if◌then◌else◌, length,
  get_elem?, replicate,
}
use poseidon.Elastic
use poseidon.Elastic.{Floats, Filter}

-- `attenuated_bloom_filter_t`. The field `level_count` is the length of `levels`.
pub record Attenuated (Float : Type 0) : Type 0 where
  pub levels : List (Filter Float)

module _ (floats : Floats) where
  open floats use {Float}

  -- attenuated_bloom_filter_create
  unfoldable pub create : ℕ → ℕ → ℕ → Float → ℕ → Attenuated Float
  create levels size hash_count threshold fp_bits = record {
    levels = replicate levels (Elastic.create floats size hash_count threshold fp_bits);
  }

  -- attenuated_bloom_filter_get_level
  unfoldable pub get_level : Attenuated Float → ℕ → Option (Filter Float)
  get_level a level = get_elem? a.levels level

  -- The loop of attenuated_bloom_filter_merge, on the levels of `dest` above the first.
  unfoldable pub merge_levels : List (Filter Float) → List (Filter Float) → List (Filter Float)
  merge_levels (d ∷ dest) (s ∷ src) = (Elastic.merge floats d s).1 ∷ merge_levels dest src
  merge_levels dest _ = dest

  -- attenuated_bloom_filter_merge; `none` is the access past a `dest` without levels.
  unfoldable pub merge : Attenuated Float → Attenuated Float → Option (Attenuated Float)
  merge dest src = elim dest.levels [
    | [] ↦ elim src.levels [ [] ↦ some dest | s ∷ ss ↦ none ]
    | d ∷ ds ↦ some (record { levels = d ∷ merge_levels ds src.levels })
  ]

  module _ (xxh3 : List ℕ → ℕ → ℕ) where
    -- attenuated_bloom_filter_subscribe and _unsubscribe, for arguments that are not NULL; `none` is
    -- the access to level 0 of a filter without levels.
    unfoldable pub subscribe : Attenuated Float → List ℕ → Option (Attenuated Float)
    subscribe a topic = elim a.levels [
      | [] ↦ none
      | e ∷ rest ↦ some (record { levels = Elastic.add floats xxh3 e topic ∷ rest })
    ]

    unfoldable pub unsubscribe : Attenuated Float → List ℕ → Option (Attenuated Float)
    unsubscribe a topic = elim a.levels [
      | [] ↦ none
      | e ∷ rest ↦ some (record { levels = Elastic.remove floats xxh3 e topic ∷ rest })
    ]

    -- The loop of attenuated_bloom_filter_check from level `level` on.
    unfoldable pub check_from : ℕ → List (Filter Float) → List ℕ → Option ℕ
    check_from level [] topic = none
    check_from level (e ∷ rest) topic =
        if Elastic.contains floats xxh3 e topic
        then some level
        else check_from (level + 1) rest topic

    -- attenuated_bloom_filter_check: the hops, if it returns true.
    unfoldable pub check : Attenuated Float → List ℕ → Option ℕ
    check a topic = check_from 0 a.levels topic
