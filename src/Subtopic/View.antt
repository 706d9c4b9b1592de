-- ===== src/Subtopic/View.antt =====
-- The table of subscriptions as a function from paths to their time to live, and what each operation
-- makes of it.
use poseidon.Prelude.{
  ℕ, zero, suc, ◌-◌, ◌≤◌, ◌<◌, ◌≡◌, refl, ap, inl, inr, Bool, true, false, ◌&&◌, Option, none, some,
  List, [], ◌∷◌, ◌++◌, arith, ltb, ◌==◌, if◌then◌else◌, Bool-cases, Option-cases, same_bytes,
  same_bytes_iff, ◌>>=◌, length, get_or, set, take,
}
use poseidon.Prelude.Entries.{find, find-lt, find_passes, count, count_of_absent, count-swap_remove}
use poseidon.Subtopic.{
  path_size, Entry, Table, is_at, blank, subscribe, unsubscribe, tick, is_subscribed,
}
use poseidon.Subtopic.Table.{IsValid, is_subscribed-count, take_all, count-unsubscribe}

-- The time to live of a path.
abbrev pub view : Table → List ℕ → Option ℕ
view [] q = none
view (e ∷ table) q = if is_at q e then some e.ttl else view table q

-- The abstract table.
abbrev pub Spec : Type 0
Spec = List ℕ → Option ℕ

abbrev pub assign : Spec → List ℕ → Option ℕ → Spec
assign f path value q = if same_bytes path q then value else f q

abbrev pub age : Option ℕ → Option ℕ
age o = o >>= λ ttl. if ltb 1 ttl then some (ttl - 1) else none

abbrev pub is_some : Option ℕ → Bool
is_some none = false
is_some (some ttl) = true

-- The entries at a path with a given time to live.
abbrev with_ttl : List ℕ → ℕ → Table → ℕ
with_ttl q v table = count (λ e. is_at q e && e.ttl == v) table

with_ttl-le : (q : List ℕ) (v : ℕ) (table : Table) → with_ttl q v table ≤ count (is_at q) table
with_ttl-le q v [] = omega arith
with_ttl-le q v (e ∷ table) = ground (arith, with_ttl-le q v table)

view_absent : (q : List ℕ) (table : Table) → count (is_at q) table ≡ 0 → view table q ≡ none
view_absent q [] h = refl
view_absent q (e ∷ table) h = ground (arith, h, view_absent q table)

-- In a table without two entries at a path, the entry that there is decides.
view_present :
    (q : List ℕ) (v : ℕ) (table : Table)
    → count (is_at q) table ≤ 1
    → 0 < with_ttl q v table
    → view table q ≡ some v
view_present q v [] u h = absurd (omega arith)
view_present q v (e ∷ table) u h = ground (arith, h, with_ttl-le q v table, view_present q v table)

-- What is viewed stands in the table.
view-count : (q : List ℕ) (v : ℕ) (table : Table) → view table q ≡ some v → 0 < with_ttl q v table
view-count q v [] h = absurd (ground arith)
view-count q v (e ∷ table) h = ground (arith, h, view-count q v table)

view_missing : (q : List ℕ) (table : Table) → view table q ≡ none → count (is_at q) table ≡ 0
view_missing q [] h = refl
view_missing q (e ∷ table) h = ground (arith, h, view_missing q table)

view-append :
    (q : List ℕ) (table : Table) (e : Entry)
    → count (is_at q) table ≡ 0
    → view (table ++ e ∷ []) q ≡ (if is_at q e then some e.ttl else none)
view-append q [] e h = refl
view-append q (x ∷ table) e h = ground (arith, h, view-append q table e)

view-append_other :
    (q : List ℕ) (table : Table) (e : Entry)
    → is_at q e ≡ false
    → view (table ++ e ∷ []) q ≡ view table q
view-append_other q [] e h = ground (arith, h)
view-append_other q (x ∷ table) e h =
    ap (λ (o : Option ℕ). if is_at q x then some x.ttl else o) (view-append_other q table e h)

view-set :
    (q path : List ℕ) (ttl : ℕ) (table : Table) (i : ℕ)
    → find (is_at path) table ≡ some i
    → view (set table i (record { path = (get_or table i blank).path; ttl = ttl })) q
      ≡ assign (view table) path (some ttl) q
unfolding find
view-set q path ttl [] i h = absurd (ground arith)
view-set q path ttl (e ∷ table) zero h =
    let at : is_at path e ≡ true = ground (arith, h) in
    let same : e.path ≡ path = (same_bytes_iff e.path path).0 at in
    ground (arith, h, ap {B = Bool} (λ (p : List ℕ). same_bytes p q) same)
view-set q path ttl (e ∷ table) (suc i) h =
    let away : is_at path e ≡ false = ground (arith, h) in
    ground (
      arith,
      h,
      away,
      view-set q path ttl table i,
      same_bytes_iff path q,
      λ (s : path ≡ q). ap {B = Bool} (λ (p : List ℕ). same_bytes e.path p) s,
    )

-- What the operations make of the view.
pub view-subscribe :
    (q path : List ℕ) (ttl : ℕ) (table : Table)
    → length path < path_size
    → (subscribe table path ttl).0 ≡ true
    → view (subscribe table path ttl).1 q ≡ assign (view table) path (some ttl) q
unfolding subscribe
view-subscribe q path ttl table fits ok = elim (Option-cases (find (is_at path) table)) [
  | inl absent ↦
      let e : Entry = record { path = take (path_size - 1) path; ttl = ttl } in
      let whole : take (path_size - 1) path ≡ path = take_all (path_size - 1) path (omega arith) in
      ground (
        arith,
        absent,
        ap {B = Bool} (λ (p : List ℕ). same_bytes p q) whole,
        view-append q table e,
        view-append_other q table e,
        count_of_absent (is_at path) table absent,
        same_bytes_iff path q,
        λ (s : path ≡ q). ap {B = ℕ} (λ p. count (is_at p) table) s,
      )
  | inr (i, present) ↦ ground (arith, present, view-set q path ttl table i present)
]

with_ttl-unsubscribe :
    (q path : List ℕ) (v : ℕ) (table : Table)
    → same_bytes path q ≡ false
    → with_ttl q v (unsubscribe table path).1 ≡ with_ttl q v table
unfolding unsubscribe
with_ttl-unsubscribe q path v table other = elim (Option-cases (find (is_at path) table)) [
  | inl absent ↦ ground (arith, absent)
  | inr (i, present) ↦
      let there : (get_or table i blank).path ≡ path =
        (same_bytes_iff _ path).0 (find_passes (is_at path) table i blank present) in
      ground (
        arith,
        present,
        count-swap_remove (λ (e : Entry). is_at q e && e.ttl == v) table i blank
            (find-lt (is_at path) table i present),
        ap {B = Bool} (λ p. same_bytes p q) there,
      )
]

pub view-unsubscribe :
    (q path : List ℕ) (table : Table)
    → IsValid table
    → view (unsubscribe table path).1 q ≡ assign (view table) path none q
view-unsubscribe q path table valid =
    let next : Table = (unsubscribe table path).1 in
    let known : count (is_at q) next ≡ _ = count-unsubscribe table path q in
    elim (Bool-cases (same_bytes path q)) [
      | inl same ↦ ground (
        arith,
        same,
        view_absent q next,
        known,
        valid.unique q,
        same_bytes_iff path q,
        λ (s : path ≡ q). ap {B = ℕ} (λ p. count (is_at p) table) s,
      )
      | inr other ↦ elim (Option-cases (view table q)) [
        | inl absent ↦
            ground (arith, other, absent, view_missing q table absent, known, view_absent q next)
        | inr (v, present) ↦ ground (
          arith,
          other,
          present,
          view-count q v table present,
          known,
          valid.unique q,
          with_ttl-unsubscribe q path v table other,
          view_present q v next,
        )
      ]
    ]

pub view-tick :
    (q : List ℕ) (table : Table)
    → count (is_at q) table ≤ 1
    → view (tick table) q ≡ age (view table q)
unfolding tick
view-tick q [] h = refl
view-tick q (e ∷ table) h = ground (arith, h, view-tick q table, view_absent q table)

pub is_subscribed-view :
    (table : Table) (path : List ℕ) → is_subscribed table path ≡ is_some (view table path)
is_subscribed-view table path =
    rw (is_subscribed-count table path) (elim (Option-cases (view table path)) [
      | inl absent ↦ ground (arith, absent, view_missing path table absent)
      | inr (v, present) ↦
          ground (arith, present, view-count path v table present, with_ttl-le path v table)
    ])
