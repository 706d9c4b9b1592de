-- ===== src/Attenuated/Tests.antt =====
-- Two nodes with two levels each.
use poseidon.Prelude.{ℕ, ◌≤◌, ◌≡◌, ◌↔◌, refl, [], ◌∷◌, some, arith}
use poseidon.Elastic.{create, record_item, add}
use poseidon.Elastic.Tests.{
  hundredths, sample_hash, small, item, small-IsConsistent, one_item, one_item-IsConsistent,
  one_item-Records,
}
use poseidon.Attenuated.{Attenuated, get_level, check, merge, merge_levels}
use poseidon.Attenuated.Routing.{IsNearest, check_iff, check-merge}

abbrev blank : Attenuated ℕ
blank = record { levels = small ∷ small ∷ [] }

-- A neighbor that subscribes to `item`.
abbrev neighbor : Attenuated ℕ
neighbor = record { levels = one_item ∷ small ∷ [] }

abbrev merged : Attenuated ℕ
merged = record { levels = small ∷ merge_levels hundredths (small ∷ []) neighbor.levels }

abbrev subscribed : Attenuated ℕ
subscribed = record { levels = add hundredths sample_hash small item ∷ small ∷ [] }

check-merge_example : (k : ℕ) × (check hundredths sample_hash merged item ≡ some k) × (k ≤ 1)
unfolding record_item merge create get_level
check-merge_example =
    check-merge hundredths sample_hash blank neighbor merged {d = small} {s = one_item} 8 0 item
      refl refl small-IsConsistent one_item-IsConsistent refl refl refl (omega arith)
      one_item-Records refl

check_iff_example :
    (check hundredths sample_hash blank item ≡ some 0)
    ↔ IsNearest hundredths sample_hash blank.levels item 0
check_iff_example = check_iff hundredths sample_hash blank item 0
