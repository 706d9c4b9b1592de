-- ===== src/Elastic/Tests.antt =====
-- Concrete filters, with fractions counted in hundredths.
use poseidon.Prelude.{ℕ, ◌+◌, ◌*◌, ◌/◌, ◌≡◌, refl, List, [], ◌∷◌, true, arith, ltb}
use poseidon.Buckets
use poseidon.Bitset
use poseidon.Elastic
use poseidon.Elastic.{Floats, Filter, create, add, remove, expand, compress, contains, record_item}
use poseidon.Elastic.Invariant.{IsConsistent}
use poseidon.Elastic.Keeps.{create-IsConsistent, add-IsConsistent, record_item-IsConsistent}
use poseidon.Elastic.Answers.{Records, record_item-Records_self}
use poseidon.Elastic.Growth.{adds, doublings, contains-adds}

abbrev pub hundredths : Floats
hundredths = record { Float = ℕ; cast = λ n. n * 100; divide = λ a b. a * 100 / b; less = ltb }

-- A hash of the bytes and the seed.
abbrev sum : List ℕ → ℕ
sum [] = 0
sum (b ∷ bytes) = b + 31 * sum bytes

abbrev pub sample_hash : List ℕ → ℕ → ℕ
sample_hash bytes seed = sum bytes + 7 * seed

-- Four bits, two rounds, a threshold of three quarters and eight bits of fingerprint.
abbrev pub small : Filter ℕ
small = create hundredths 4 2 75 8

abbrev pub item : List ℕ
item = 5 ∷ 9 ∷ []

abbrev others : List (List ℕ)
others = (6 ∷ []) ∷ (1 ∷ 2 ∷ []) ∷ []

pub small-IsConsistent : IsConsistent small
small-IsConsistent = create-IsConsistent hundredths 4 2 8 75

doublings_small : doublings hundredths sample_hash small (item ∷ others) ≡ 1
unfolding create record_item Elastic.add_loop add Elastic.ratio expand Bitset.put
    Bitset.ensure_capacity Bitset.write_bit Buckets.insert_new Buckets.split Buckets.occupied
    Elastic.rebuild Elastic.rebuild_loop Bitset.create Buckets.contains
doublings_small = refl

contains-adds_example :
    contains hundredths sample_hash (adds hundredths sample_hash small (item ∷ others)) item ≡ true
unfolding create
contains-adds_example =
    contains-adds hundredths sample_hash {e = small} item others small-IsConsistent (omega arith)
      (omega arith) (omega arith) (omega (arith, doublings_small))

add-IsConsistent_example : IsConsistent (add hundredths sample_hash small item)
unfolding create
add-IsConsistent_example =
    add-IsConsistent hundredths sample_hash {e = small} item (omega arith) small-IsConsistent
      (omega arith)

-- The filter with one item, recorded to eight digits.
abbrev pub one_item : Filter ℕ
one_item = record_item hundredths sample_hash small item

pub one_item-IsConsistent : IsConsistent one_item
unfolding create
one_item-IsConsistent =
    record_item-IsConsistent hundredths sample_hash {e = small} item (omega arith)
      small-IsConsistent

pub one_item-Records : Records hundredths sample_hash 8 one_item item
unfolding create
one_item-Records =
    record_item-Records_self hundredths sample_hash {e = small} item (omega arith)
      small-IsConsistent 8 (omega arith) (omega arith)
