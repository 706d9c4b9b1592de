-- ===== src/Manager/Tombstones.antt =====
-- The tombstones: which one a topic has after additions and expiry.
use poseidon.Prelude.{
  ℕ, zero, suc, ◌≤◌, ◌≡◌, refl, sym, ap, ◌∙◌, inl, inr, Bool, true, false, Option, none, some, List,
  [], ◌∷◌, ◌++◌, arith, ltb, if◌then◌else◌, Bool-cases, Option-cases, same_bytes, same_bytes_iff,
  ◌>>=◌, length, get_or, get_elem?, set, length-append, length-set,
}
use poseidon.Prelude.Entries.{
  find, filter, count, find-lt, find_passes, count_of_absent, count-set, count-append,
}
use poseidon.Manager.{
  Manager, Tombstone, max_tombstones, has_topic, no_tombstone, add_tombstone, find_tombstone,
  expire_tombstones,
}

-- The first tombstone of a topic.
abbrev first : List ℕ → List Tombstone → Option Tombstone
first topic [] = none
first topic (t ∷ ts) = if has_topic topic t then some t else first topic ts

first_lem :
    (topic : List ℕ) (ts : List Tombstone)
    → (find (has_topic topic) ts >>= λ i. get_elem? ts i) ≡ first topic ts
unfolding find
first_lem topic [] = refl
first_lem topic (t ∷ ts) = elim (Bool-cases (has_topic topic t)) [
  | inl e ↦ ground (arith, e)
  | inr e ↦ elim (Option-cases (find (has_topic topic) ts)) [
    | inl f ↦ ground (arith, e, f, first_lem topic ts)
    | inr (i, f) ↦ ground (arith, e, f, first_lem topic ts)
  ]
]

-- Which of two tombstones of one topic stays.
abbrev pub newer : Option Tombstone → Tombstone → Tombstone
newer none t = t
newer (some old) t = if ltb old.timestamp_us t.timestamp_us then t else old

first-append :
    (topic : List ℕ) (ts : List Tombstone) (t : Tombstone)
    → first topic (ts ++ t ∷ []) ≡ elim (first topic ts) [
      | none ↦ if has_topic topic t then some t else none
      | some old ↦ some old
    ]
first-append topic [] t = refl
first-append topic (x ∷ ts) t = ground (arith, first-append topic ts t)

first-find :
    (topic : List ℕ) (ts : List Tombstone) (i : ℕ)
    → find (has_topic topic) ts ≡ some i
    → first topic ts ≡ some (get_or ts i no_tombstone)
unfolding find
first-find topic [] i h = absurd (ground arith)
first-find topic (t ∷ ts) zero h = ground (arith, h)
first-find topic (t ∷ ts) (suc i) h = ground (arith, h, first-find topic ts i)

first-absent :
    (topic : List ℕ) (ts : List Tombstone)
    → find (has_topic topic) ts ≡ none
    → first topic ts ≡ none
unfolding find
first-absent topic [] h = refl
first-absent topic (t ∷ ts) h = ground (arith, h, first-absent topic ts)

first-set :
    (topic : List ℕ) (t : Tombstone) (ts : List Tombstone) (i : ℕ)
    → find (has_topic t.topic_id) ts ≡ some i
    → first topic (set ts i t) ≡ (if same_bytes t.topic_id topic then some t else first topic ts)
unfolding find
first-set topic t [] i h = absurd (ground arith)
first-set topic t (x ∷ ts) zero h =
    let at : has_topic t.topic_id x ≡ true = ground (arith, h) in
    let same : x.topic_id ≡ t.topic_id = (same_bytes_iff x.topic_id t.topic_id).0 at in
    ground (arith, h, ap {B = Bool} (λ (p : List ℕ). same_bytes p topic) same)
first-set topic t (x ∷ ts) (suc i) h =
    let away : has_topic t.topic_id x ≡ false = ground (arith, h) in
    ground (
      arith,
      h,
      away,
      first-set topic t ts i,
      same_bytes_iff t.topic_id topic,
      λ (s : t.topic_id ≡ topic). ap {B = Bool} (λ (p : List ℕ). same_bytes x.topic_id p) s,
    )

find_tombstone-eq :
    (m : Manager) (topic : List ℕ) → find_tombstone m topic ≡ first topic m.tombstones
unfolding find_tombstone
find_tombstone-eq m topic = first_lem topic m.tombstones

add_lem :
    (m : Manager) (t : Tombstone) (topic : List ℕ)
    → (add_tombstone m t).0 ≡ true
    → first topic (add_tombstone m t).1.tombstones ≡ (
        if same_bytes t.topic_id topic
        then some (newer (first topic m.tombstones) t)
        else first topic m.tombstones)
unfolding add_tombstone
add_lem m t topic ok = elim (Option-cases (find (has_topic t.topic_id) m.tombstones)) [
  | inl e ↦ ground (
    arith,
    e,
    first-append topic m.tombstones t,
    first-absent t.topic_id m.tombstones e,
    same_bytes_iff t.topic_id topic,
    λ (s : t.topic_id ≡ topic). ap {B = Option Tombstone} (λ (p : List ℕ). first p m.tombstones) s,
  )
  | inr (i, e) ↦ ground (
    arith,
    e,
    first-set topic t m.tombstones i e,
    first-find t.topic_id m.tombstones i e,
    same_bytes_iff t.topic_id topic,
    λ (s : t.topic_id ≡ topic). ap {B = Option Tombstone} (λ (p : List ℕ). first p m.tombstones) s,
  )
]

-- After an addition that is not refused, the tombstone of the topic is the one that was added
-- where there was none or an older one, else the one there was, and the tombstone of every other
-- topic is what it was.
pub find_tombstone-add :
    (m : Manager) (t : Tombstone) (topic : List ℕ)
    → (add_tombstone m t).0 ≡ true
    → find_tombstone (add_tombstone m t).1 topic ≡ (
        if same_bytes t.topic_id topic
        then some (newer (find_tombstone m topic) t)
        else find_tombstone m topic)
find_tombstone-add m t topic ok =
    find_tombstone-eq (add_tombstone m t).1 topic
    ∙ add_lem m t topic ok
    ∙ ap (λ (o : Option Tombstone). if same_bytes t.topic_id topic then some (newer o t) else o)
        (sym (find_tombstone-eq m topic))

first_of_absent :
    (topic : List ℕ) (ts : List Tombstone) → count (has_topic topic) ts ≡ 0 → first topic ts ≡ none
first_of_absent topic [] h = refl
first_of_absent topic (t ∷ ts) h = ground (arith, h, first_of_absent topic ts)

first-filter :
    (now : ℕ) (topic : List ℕ) (ts : List Tombstone)
    → count (has_topic topic) ts ≤ 1
    → first topic (filter (λ (t : Tombstone). ltb now t.expires_at_us) ts)
      ≡ (first topic ts >>= λ t. if ltb now t.expires_at_us then some t else none)
first-filter now topic [] h = refl
first-filter now topic (t ∷ ts) h =
    ground (arith, h, first-filter now topic ts, first_of_absent topic ts)

-- No topic has two tombstones, and they fit their array.
pub record IsValid (m : Manager) : Type 0 where
  pub unique : (topic : List ℕ) → count (has_topic topic) m.tombstones ≤ 1
  pub bounded : length m.tombstones ≤ max_tombstones

pub add_tombstone-IsValid :
    (m : Manager) (t : Tombstone) → IsValid m → IsValid (add_tombstone m t).1
unfolding add_tombstone
add_tombstone-IsValid m t valid = record {
  unique = λ topic. elim (Option-cases (find (has_topic t.topic_id) m.tombstones)) [
    | inl e ↦ ground (
      arith,
      e,
      valid.unique topic,
      count-append (has_topic topic) m.tombstones (t ∷ []),
      count_of_absent (has_topic t.topic_id) m.tombstones e,
      same_bytes_iff t.topic_id topic,
      λ (s : t.topic_id ≡ topic). ap {B = ℕ} (λ p. count (has_topic p) m.tombstones) s,
    )
    | inr (i, e) ↦
        let old : Tombstone = get_or m.tombstones i no_tombstone in
        let same : old.topic_id ≡ t.topic_id =
          (same_bytes_iff _ t.topic_id).0
            (find_passes (has_topic t.topic_id) m.tombstones i no_tombstone e) in
        ground (
          arith,
          e,
          valid.unique topic,
          count-set (has_topic topic) m.tombstones i t no_tombstone
              (find-lt (has_topic t.topic_id) m.tombstones i e),
          ap {B = Bool} (λ (p : List ℕ). same_bytes p topic) same,
        )
  ];
  bounded = elim (Option-cases (find (has_topic t.topic_id) m.tombstones)) [
    | inl e ↦ ground (arith, e, valid.bounded, length-append m.tombstones (t ∷ []))
    | inr (i, e) ↦ ground (arith, e, valid.bounded, length-set m.tombstones i t)
  ];
}

-- After an expiry in a valid manager, a topic keeps its tombstone where that has not expired, and has
-- none where it has.
pub find_tombstone-expire :
    (now : ℕ) (m : Manager) (topic : List ℕ)
    → IsValid m
    → find_tombstone (expire_tombstones now m) topic
      ≡ (find_tombstone m topic >>= λ t. if ltb now t.expires_at_us then some t else none)
unfolding expire_tombstones
find_tombstone-expire now m topic valid =
    find_tombstone-eq (expire_tombstones now m) topic
    ∙ first-filter now topic m.tombstones (valid.unique topic)
    ∙ ap (λ (o : Option Tombstone). o >>= λ t. if ltb now t.expires_at_us then some t else none)
        (sym (find_tombstone-eq m topic))
