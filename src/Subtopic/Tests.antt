-- ===== src/Subtopic/Tests.antt =====
-- The paths "a/b" and "a", and a table with one subscription.
use poseidon.Prelude.{
  ℕ, ◌≡◌, ◌↔◌, ◌⊎◌, refl, List, [], ◌∷◌, true, some, none, arith, if◌then◌else◌, take,
}
use poseidon.Subtopic.{create, parse, matches}
use poseidon.Subtopic.Parse.{segments, all_fit, parse-eq-segments}
use poseidon.Subtopic.Match.{Covers, trim, matches_iff}
use poseidon.Subtopic.Table.{IsValid}
use poseidon.Subtopic.Refinement.{Op, run, replay, run_refines}
use poseidon.Subtopic.View.{view}

abbrev a_b : List ℕ
a_b = 97 ∷ 47 ∷ 98 ∷ []

abbrev a : List ℕ
a = 97 ∷ []

parse-eq-segments_example :
    parse a_b 8 ≡ (if all_fit (take 8 (segments a_b)) then some (take 8 (segments a_b)) else none)
parse-eq-segments_example = parse-eq-segments a_b 8 (omega arith)

matches_iff_example : (matches a_b a ≡ true) ↔ ((a ≡ []) ⊎ Covers (trim a) a_b)
matches_iff_example = matches_iff a_b a

create-IsValid : IsValid create
create-IsValid = record { unique = λ path. omega arith; bounded = omega arith }

abbrev calls : List Op
calls =
    Op.call_subscribe a 2
    ∷ Op.call_tick
    ∷ Op.call_subscribe a_b 9
    ∷ Op.call_subscribe a 7
    ∷ Op.call_tick
    ∷ Op.call_unsubscribe a
    ∷ []

abbrev both : List (List ℕ)
both = a ∷ a_b ∷ []

run_refines_example :
    ((run calls create).0 ≡ (replay both calls (view create)).0)
    × (view (run calls create).1 ≡ (replay both calls (view create)).1)
run_refines_example =
    run_refines both calls create create-IsValid (λ path h. absurd (omega (arith, h)))
      (omega arith, refl, (omega arith, refl, (omega arith, refl, refl)))
