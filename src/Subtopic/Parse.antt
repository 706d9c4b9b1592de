-- ===== src/Subtopic/Parse.antt =====
-- `subtopic_parse` against a specification: split at the separators, drop the empty segments, and
-- take the first ones.
use poseidon.Prelude.{
  ℕ, suc, ◌+◌, ◌-◌, ◌≤◌, ◌<◌, ◌≡◌, refl, ap, List, [], ◌∷◌, ◌++◌, Bool, true, false, ◌&&◌, Option,
  none, some, arith, ltb, leb, ◌==◌, if◌then◌else◌, length, length-append, take, take-nil,
  Bool-cases, inl, inr, ltb→lt, sym, >>=_ext, ◌>>=◌,
}
use mathlib.Core.List.{append-nil, append_assoc}
use poseidon.Subtopic.{separator, max_part_len, push_part, parse_loop, parse}

-- The segments of the text after `segment`, the empty ones left out.
abbrev add_segment : List ℕ → List (List ℕ) → List (List ℕ)
add_segment [] rest = rest
add_segment (c ∷ cs) rest = (c ∷ cs) ∷ rest

segments_from : List ℕ → List ℕ → List (List ℕ)
segments_from segment [] = add_segment segment []
segments_from segment (c ∷ rest) = elim (c == separator) [
  | true ↦ add_segment segment (segments_from [] rest)
  | false ↦ segments_from (segment ++ c ∷ []) rest
]

segments_from_end : (segment : List ℕ) → segments_from segment [] ≡ add_segment segment []
unfolding segments_from
segments_from_end segment = refl

segments_from_boundary :
    (segment : List ℕ) (c : ℕ) (rest : List ℕ)
    → (c == separator) ≡ true
    → segments_from segment (c ∷ rest) ≡ add_segment segment (segments_from [] rest)
unfolding segments_from
segments_from_boundary segment c rest h = ground arith

segments_from_other :
    (segment : List ℕ) (c : ℕ) (rest : List ℕ)
    → (c == separator) ≡ false
    → segments_from segment (c ∷ rest) ≡ segments_from (segment ++ c ∷ []) rest
unfolding segments_from
segments_from_other segment c rest h = ground arith

-- The non-empty segments of a path.
pub segments : List ℕ → List (List ℕ)
segments path = segments_from [] path

-- Every segment fits its buffer of `max_part_len` bytes, terminator included.
pub all_fit : List (List ℕ) → Bool
all_fit [] = true
all_fit (s ∷ rest) = ltb (length s) max_part_len && all_fit rest

-- The first `n` segments, if they all fit.
abbrev pub checked : List (List ℕ) → Option (List (List ℕ))
checked parts = if all_fit parts then some parts else none

-- What is left to return after `parts`, with `more` segments to come.
abbrev finish : ℕ → List (List ℕ) → List (List ℕ) → Option (List (List ℕ))
finish max_parts parts more =
    if all_fit (take (max_parts - length parts) more)
    then some (parts ++ take (max_parts - length parts) more)
    else none

finish_full :
    (max_parts : ℕ) (parts more : List (List ℕ))
    → length parts ≡ max_parts
    → finish max_parts parts more ≡ some parts
unfolding all_fit
finish_full max_parts parts more h =
    let none_left : max_parts - length parts ≡ 0 = omega arith in rw (none_left, append-nil)

-- One more segment, written or refused.
finish-cons :
    (max_parts : ℕ) (parts more : List (List ℕ)) (segment : List ℕ)
    → length parts < max_parts
    → finish max_parts parts (segment ∷ more) ≡ (
        if leb max_part_len (length segment)
        then none
        else finish max_parts (parts ++ segment ∷ []) more)
unfolding all_fit
finish-cons max_parts parts more segment h =
    let left : max_parts - length parts ≡ suc (max_parts - length (parts ++ segment ∷ [])) =
      omega (arith, length-append parts (segment ∷ [])) in
    rw left (simp append_assoc (ground arith))

finish-nil : (max_parts : ℕ) (parts : List (List ℕ)) → finish max_parts parts [] ≡ some parts
unfolding all_fit
finish-nil max_parts parts = rw (take-nil (max_parts - length parts), append-nil)

length-push_part :
    (parts : List (List ℕ)) (segment : List ℕ) (parts' : List (List ℕ))
    → push_part parts segment ≡ some parts'
    → length parts' ≤ length parts + 1
length-push_part parts segment parts' h = ground (
  arith,
  length-append parts (segment ∷ []),
  λ (e : parts ++ segment ∷ [] ≡ parts'). ap {B = ℕ} length e,
  λ (e : parts ≡ parts'). ap {B = ℕ} length e,
)

finish-push_part :
    (max_parts : ℕ) (parts more : List (List ℕ)) (segment : List ℕ)
    → length parts < max_parts
    → (push_part parts segment >>= λ p. finish max_parts p more)
      ≡ finish max_parts parts (add_segment segment more)
finish-push_part max_parts parts more [] h = refl
finish-push_part max_parts parts more (c ∷ cs) h =
    rw (finish-cons max_parts parts more (c ∷ cs) h) (ground arith)

>>=-finish-nil :
    (max_parts : ℕ) (o : Option (List (List ℕ))) → (o >>= λ p. finish max_parts p []) ≡ o
>>=-finish-nil max_parts none = refl
>>=-finish-nil max_parts (some p) = finish-nil max_parts p

module _ (max_parts : ℕ) where
  parse_loop_lem :
      (rest segment : List ℕ) (parts : List (List ℕ))
      → length parts ≤ max_parts
      → parse_loop max_parts rest segment parts
        ≡ finish max_parts parts (segments_from segment rest)
  unfolding parse_loop
  parse_loop_lem [] segment parts h = elim (Bool-cases (ltb (length parts) max_parts)) [
    | inl room ↦
        rw
          (
            segments_from_end segment,
            room,
            ← finish-push_part max_parts parts [] segment (ltb→lt _ _ room),
          )
          (sym (>>=-finish-nil max_parts (push_part parts segment)))
    | inr full ↦ rw (full, finish_full max_parts parts (segments_from segment []) (ground arith))
  ]
  parse_loop_lem (c ∷ rest) segment parts h = elim (Bool-cases (ltb (length parts) max_parts)) [
    | inl room ↦ elim (Bool-cases (c == separator)) [
      | inl here ↦
          rw
            (
              segments_from_boundary segment c rest here,
              room,
              here,
              ← finish-push_part max_parts parts (segments_from [] rest) segment (ltb→lt _ _ room),
            )
            (>>=_ext (parse_loop max_parts rest [])
              (λ p. finish max_parts p (segments_from [] rest)) (push_part parts segment)
              (λ p e.
                parse_loop_lem rest [] p
                  (omega (arith, length-push_part parts segment p e, ltb→lt _ _ room))))
      | inr not_here ↦
          rw (segments_from_other segment c rest not_here, room, not_here)
            (parse_loop_lem rest (segment ++ c ∷ []) parts h)
    ]
    | inr full ↦
        rw (full, finish_full max_parts parts (segments_from segment (c ∷ rest)) (ground arith))
  ]

-- With room for some part, parsing a path gives its first segments that are not empty, and fails
-- exactly when one of these does not fit its buffer.
pub parse-eq-segments :
    (path : List ℕ) (max_parts : ℕ)
    → 0 < max_parts
    → parse path max_parts ≡ (
        if all_fit (take max_parts (segments path))
        then some (take max_parts (segments path))
        else none)
unfolding parse segments segments_from all_fit
parse-eq-segments [] max_parts h = rw (take-nil max_parts) (ground arith)
parse-eq-segments (c ∷ rest) max_parts h =
    let all_left : max_parts - 0 ≡ max_parts = omega arith in
    let no_room : (max_parts == 0) ≡ false = ground arith in
    let not_empty : (length (c ∷ rest) == 0) ≡ false = ground arith in
    rw (no_room, not_empty, parse_loop_lem max_parts (c ∷ rest) [] [] (omega arith), all_left) refl
