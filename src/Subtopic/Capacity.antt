-- ===== src/Subtopic/Capacity.antt =====
-- The number of entries of a table of subscriptions, counted on its view.
use mathlib.Core.Path.{subst}
use poseidon.Prelude.{
  ℕ, ◌+◌, ◌<◌, ◌≡◌, ◌∙◌, sym, ap, inl, inr, ◌||◌, List, [], ◌∷◌, arith, ltb, length, same_bytes,
  same_bytes_refl, same_bytes_iff, Bool-cases, Option-cases,
}
use poseidon.Prelude.Entries.{find, count, sum_of}
use poseidon.Subtopic.{
  max_subs, path_size, Entry, Table, is_at, subscribe, unsubscribe, is_subscribed, tick,
}
use poseidon.Subtopic.Table.{
  IsValid, is_subscribed-count, count-subscribe, count-unsubscribe, subscribe_refused,
}
use poseidon.Subtopic.Expiry.{count-tick, lasting-le}
use poseidon.Subtopic.View.{Spec, view, is_some, is_subscribed-view}

-- How often a path stands in a list of paths.
abbrev pub stands : List (List ℕ) → List ℕ → ℕ
stands paths path = count (λ p. same_bytes path p) paths

-- The paths, of a list of them, that are subscribed.
abbrev pub occupied : List (List ℕ) → Spec → ℕ
occupied paths f = count (λ p. is_some (f p)) paths

-- Each path of the table stands once in a list of paths.
abbrev pub IsListed : List (List ℕ) → Table → Type 0
IsListed paths table = (path : List ℕ) → 0 < count (is_at path) table → stands paths path ≡ 1

abbrev entries_at : List (List ℕ) → Table → ℕ
entries_at paths table = sum_of (λ path. count (is_at path) table) paths

entries_at-nil : (paths : List (List ℕ)) → entries_at paths [] ≡ 0
entries_at-nil [] = omega arith
entries_at-nil (p ∷ paths) = omega (arith, entries_at-nil paths)

entries_at-cons :
    (paths : List (List ℕ)) (e : Entry) (table : Table)
    → entries_at paths (e ∷ table) ≡ stands paths e.path + entries_at paths table
entries_at-cons [] e table = omega arith
entries_at-cons (p ∷ paths) e table = omega (arith, entries_at-cons paths e table)

-- Each entry is counted at the one place of its path.
entries_at-length :
    (paths : List (List ℕ)) (table : Table)
    → IsListed paths table
    → entries_at paths table ≡ length table
entries_at-length paths [] listed = entries_at-nil paths
entries_at-length paths (e ∷ table) listed = omega (
  arith,
  entries_at-cons paths e table,
  listed e.path (ground (arith, same_bytes_refl e.path)),
  entries_at-length paths table (λ path h. listed path (omega (arith, h))),
)

occupied-entries_at :
    (paths : List (List ℕ)) (table : Table)
    → IsValid table
    → occupied paths (view table) ≡ entries_at paths table
occupied-entries_at [] table valid = omega arith
occupied-entries_at (p ∷ paths) table valid = ground (
  arith,
  occupied-entries_at paths table valid,
  valid.unique p,
  is_subscribed-count table p,
  is_subscribed-view table p,
)

-- A valid table has as many entries as its view has paths.
pub occupied-view :
    (paths : List (List ℕ)) (table : Table)
    → IsValid table
    → IsListed paths table
    → occupied paths (view table) ≡ length table
occupied-view paths table valid listed =
    occupied-entries_at paths table valid ∙ entries_at-length paths table listed

-- A subscription is accepted where its path is there already, or there is room.
pub subscribe-room :
    (table : Table) (path : List ℕ) (ttl : ℕ)
    → (subscribe table path ttl).0 ≡ (is_subscribed table path || ltb (length table) max_subs)
unfolding subscribe is_subscribed
subscribe-room table path ttl = elim (Option-cases (find (is_at path) table)) [
  | inl absent ↦ ground (arith, absent)
  | inr (i, present) ↦ ground (arith, present)
]

-- The operations keep the paths listed.
pub subscribe-IsListed :
    (paths : List (List ℕ)) (table : Table) (path : List ℕ) (ttl : ℕ)
    → length path < path_size
    → stands paths path ≡ 1
    → IsListed paths table
    → IsListed paths (subscribe table path ttl).1
subscribe-IsListed paths table path ttl fits once listed q h =
    elim (Bool-cases (subscribe table path ttl).0) [
      | inr refused ↦
          listed q (subst (λ t. 0 < count (is_at q) t) (subscribe_refused table path ttl refused) h)
      | inl ok ↦ elim (Bool-cases (same_bytes path q)) [
        | inl same ↦ ap (stands paths) (sym ((same_bytes_iff path q).0 same)) ∙ once
        | inr other ↦ listed q (ground (arith, h, other, count-subscribe table path ttl q fits ok))
      ]
    ]

pub unsubscribe-IsListed :
    (paths : List (List ℕ)) (table : Table) (path : List ℕ)
    → IsListed paths table
    → IsListed paths (unsubscribe table path).1
unsubscribe-IsListed paths table path listed q h =
    listed q (omega (arith, h, count-unsubscribe table path q))

pub tick-IsListed :
    (paths : List (List ℕ)) (table : Table) → IsListed paths table → IsListed paths (tick table)
tick-IsListed paths table listed q h =
    listed q (omega (arith, h, count-tick q table, lasting-le 1 q table))
