-- ===== src/TopicAlias/Laws.antt =====
-- The topics a name stands for, and what each operation does to them.
use mathlib.Core.List.{append-nil, append_assoc}
use poseidon.Prelude.{
  ℕ, zero, suc, ◌+◌, ◌-◌, ◌≤◌, ◌≡◌, refl, ap, List, [], ◌∷◌, ◌++◌, Bool, false, Option, none, some,
  arith, ltb, ◌==◌, if◌then◌else◌, length, length-append, get_or, take, same_bytes, same_bytes_iff,
  Bool-cases, Option-cases, inl, inr, ◌&&◌, take-nil,
}
use poseidon.Prelude.Entries.{
  find, find-lt, find_passes, count, count-swap_remove, count_of_absent, count_of_present,
}
use poseidon.TopicAlias.{
  max_name, max_topic, max_candidates, Entry, Registry, is_named, blank, register, unregister,
  resolve, Status, resolve_loop, resolve_ex,
}

-- The topics of the entries with a name, in their order.
abbrev pub topics : List ℕ → List Entry → List (List ℕ)
topics name [] = []
topics name (e ∷ entries) =
    if is_named name e then e.topic ∷ topics name entries else topics name entries

length-topics :
    (name : List ℕ) (entries : List Entry)
    → length (topics name entries) ≡ count (is_named name) entries
length-topics name [] = refl
length-topics name (e ∷ entries) = ground (arith, length-topics name entries)

topics-append :
    (name : List ℕ) (xs ys : List Entry) → topics name (xs ++ ys) ≡ topics name xs ++ topics name ys
topics-append name [] ys = refl
topics-append name (e ∷ xs) ys = ground (arith, topics-append name xs ys)

-- A registry keeps within its capacity.
pub IsBounded : Registry → Type 0
IsBounded reg = length reg.entries ≤ reg.capacity

-- A registration is refused exactly where the registry is full; else it adds the topic, cut to 63
-- bytes, as the last one of the name cut to 63 bytes, and the topics of every other name stay.
pub register_lem :
    (reg : Registry) (name topic q : List ℕ)
    → ((register reg name topic).0 ≡ ltb (length reg.entries) reg.capacity)
      × (topics q (register reg name topic).1.entries ≡ (
          if ltb (length reg.entries) reg.capacity && same_bytes (take (max_name - 1) name) q
          then topics q reg.entries ++ take (max_topic - 1) topic ∷ []
          else topics q reg.entries))
unfolding register
register_lem reg name topic q =
    let new : Entry = record {
      name = take (max_name - 1) name;
      topic = take (max_topic - 1) topic;
    } in
    ground (arith, topics-append q reg.entries (new ∷ []), append-nil (topics q reg.entries))

-- Registration and removal keep a registry within its capacity.
pub register-IsBounded :
    (reg : Registry) (name topic : List ℕ) → IsBounded reg → IsBounded (register reg name topic).1
unfolding register IsBounded
register-IsBounded reg name topic h = ground (
  arith,
  length-append reg.entries
      (record { name = take (max_name - 1) name; topic = take (max_topic - 1) topic } ∷ []),
)

-- A removal takes away one of the name's entries, if it has one, and no entry of another name.
pub count-unregister :
    (reg : Registry) (name q : List ℕ)
    → ((unregister reg name).0 ≡ ltb 0 (count (is_named name) reg.entries))
      × (count (is_named q) (unregister reg name).1.entries
          ≡ count (is_named q) reg.entries - (if same_bytes name q then 1 else 0))
unfolding unregister
count-unregister reg name q = elim (Option-cases (find (is_named name) reg.entries)) [
  | inl absent ↦ (
    ground (arith, absent, count_of_absent (is_named name) reg.entries absent),
    ground (
      arith,
      absent,
      count_of_absent (is_named name) reg.entries absent,
      same_bytes_iff name q,
      λ (e : name ≡ q). ap {B = ℕ} (λ p. count (is_named p) reg.entries) e,
    ),
  )
  | inr (i, present) ↦
      let there : (get_or reg.entries i blank).name ≡ name =
        (same_bytes_iff _ name).0 (find_passes (is_named name) reg.entries i blank present) in
      (
        ground (arith, present, count_of_present (is_named name) reg.entries i present),
        ground (
          arith,
          present,
          count-swap_remove (is_named q) reg.entries i blank
              (find-lt (is_named name) reg.entries i present),
          ap {B = Bool} (λ p. same_bytes p q) there,
        ),
      )
]

-- `resolve` gives the first topic of the name.
abbrev pub first : List (List ℕ) → Option (List ℕ)
first [] = none
first (t ∷ ts) = some t

first_of_find :
    (name : List ℕ) (entries : List Entry)
    → (elim (find (is_named name) entries) [
      | some i ↦ some (get_or entries i blank).topic
      | none ↦ none
    ])
      ≡ first (topics name entries)
unfolding find
first_of_find name [] = refl
first_of_find name (e ∷ entries) = ground (arith, first_of_find name entries)

pub resolve-eq-first :
    (reg : Registry) (name : List ℕ) → resolve reg name ≡ first (topics name reg.entries)
unfolding resolve
resolve-eq-first reg name = first_of_find name reg.entries

-- The topic that the first match leaves in the answer.
abbrev answer : ℕ → List ℕ → List (List ℕ) → List ℕ
answer zero topic (t ∷ ts) = take (max_topic - 1) t
answer _ topic _ = topic

pair_ext :
    (t : List ℕ) (xs ys : List (List ℕ)) (m n : ℕ)
    → xs ≡ ys
    → m ≡ n
    → ◌≡◌ {A = List ℕ × List (List ℕ) × ℕ} (t, xs, m) (t, ys, n)
pair_ext t xs ys m n e h = ground arith

resolve_loop_lem :
    (name : List ℕ) (entries : List Entry) (topic : List ℕ) (candidates : List (List ℕ)) (n : ℕ)
    → resolve_loop name entries topic candidates n ≡ (
      answer n topic (topics name entries),
      candidates ++ take (max_candidates - n) (topics name entries),
      n + length (topics name entries),
    )
unfolding resolve_loop
resolve_loop_lem name [] topic candidates zero = ground (arith, append-nil candidates)
resolve_loop_lem name [] topic candidates (suc n) =
    ground (arith, take-nil {A = List ℕ} (max_candidates - suc n), append-nil candidates)
resolve_loop_lem name (e ∷ entries) topic candidates zero = ground (
  arith,
  resolve_loop_lem name entries topic candidates 0,
  resolve_loop_lem name entries (take (max_topic - 1) e.topic) (candidates ++ e.topic ∷ []) 1,
  append_assoc candidates (e.topic ∷ []) (take (max_candidates - 1) (topics name entries)),
)
resolve_loop_lem name (e ∷ entries) topic candidates (suc n) = elim (Bool-cases (is_named name e)) [
  | inr other ↦ rw (other) (resolve_loop_lem name entries topic candidates (suc n))
  | inl same ↦
      let not_first : (suc n == 0) ≡ false = ground arith in
      elim (Bool-cases (ltb (suc n) max_candidates)) [
        | inl room ↦
            let left : max_candidates - suc n ≡ suc (max_candidates - suc (suc n)) = ground arith in
            rw
              (
                same,
                room,
                left,
                not_first,
                resolve_loop_lem name entries topic (candidates ++ e.topic ∷ []) (suc (suc n)),
              )
              (pair_ext _ _ _ _ _
                (append_assoc candidates (e.topic ∷ [])
                  (take (max_candidates - suc (suc n)) (topics name entries)))
                (omega arith))
        | inr full ↦
            let none_left : max_candidates - suc n ≡ 0 = ground arith in
            let still_none : max_candidates - suc (suc n) ≡ 0 = ground arith in
            rw
              (
                same,
                full,
                none_left,
                not_first,
                resolve_loop_lem name entries topic candidates (suc (suc n)),
                still_none,
              )
              (pair_ext _ _ _ _ _ refl (omega arith))
      ]
]

answer-get_or : (ts : List (List ℕ)) → answer 0 [] ts ≡ take (max_topic - 1) (get_or ts 0 [])
answer-get_or [] = refl
answer-get_or (t ∷ ts) = refl

-- The extended resolution counts all the topics of the name, gives the first one, cut to 63 bytes,
-- and the first eight as candidates; its status says whether there is none, one or more.
pub resolve_ex_lem :
    (reg : Registry) (name : List ℕ)
    → resolve_ex reg name ≡ record {
      status =
          if length (topics name reg.entries) == 0
          then Status.not_found
          else if length (topics name reg.entries) == 1
          then Status.ok
          else Status.ambiguous;
      topic = take (max_topic - 1) (get_or (topics name reg.entries) 0 []);
      candidates = take max_candidates (topics name reg.entries);
      num_candidates = length (topics name reg.entries);
    }
unfolding resolve_ex
resolve_ex_lem reg name =
    ground
      (arith, resolve_loop_lem name reg.entries [] [] 0, answer-get_or (topics name reg.entries))
