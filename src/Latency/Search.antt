-- ===== src/Latency/Search.antt =====
-- The search of the cache, as a function of its entries.
use poseidon.Prelude.{
  ℕ, zero, suc, ◌≤◌, ◌<◌, ◌≡◌, refl, ap, ◌∙◌, inl, inr, true, false, ◌&&◌, Option, none, some, List,
  [], ◌∷◌, ◌++◌, arith, ◌==◌, if◌then◌else◌, Bool-cases, Option-cases, length, get_or, set,
}
use poseidon.Prelude.Entries.{find, count, count_of_get}
use poseidon.Ring.{Node}
use poseidon.Latency.{Entry, Cache, no_entry, is_at, get}

-- The latency of the first entry of an address and port.
abbrev pub latency_at : ℕ → ℕ → List Entry → Option ℕ
latency_at a p [] = none
latency_at a p (e ∷ es) = if is_at a p e then some e.latency_us else latency_at a p es

found_lem :
    (a p : ℕ) (es : List Entry)
    → (elim (find (is_at a p) es) [ none ↦ none | some i ↦ some (get_or es i no_entry).latency_us ])
      ≡ latency_at a p es
unfolding find
found_lem a p [] = refl
found_lem a p (e ∷ es) = elim (Bool-cases (is_at a p e)) [
  | inl at ↦ ground (arith, at)
  | inr away ↦ elim (Option-cases (find (is_at a p) es)) [
    | inl f ↦ ground (arith, away, f, found_lem a p es)
    | inr (i, f) ↦ ground (arith, away, f, found_lem a p es)
  ]
]

pub get_lem :
    (cache : Cache) (node : Node) → get cache node ≡ latency_at node.addr node.port cache.entries
unfolding get
get_lem cache node = found_lem node.addr node.port cache.entries

pub latency_of_absent :
    (a p : ℕ) (es : List Entry) → count (is_at a p) es ≡ 0 → latency_at a p es ≡ none
latency_of_absent a p [] h = refl
latency_of_absent a p (e ∷ es) h = ground (arith, h, latency_of_absent a p es)

pub latency_at-append :
    (a p : ℕ) (es : List Entry) (e : Entry)
    → latency_at a p (es ++ e ∷ []) ≡ elim (latency_at a p es) [
      | none ↦ if is_at a p e then some e.latency_us else none
      | some latency ↦ some latency
    ]
latency_at-append a p [] e = ground arith
latency_at-append a p (x ∷ es) e = ground (arith, latency_at-append a p es e)

-- An entry is written at `i`, where no other entry has its address and port.
pub latency_at-set :
    (a p : ℕ) (v : Entry) (es : List Entry) (i : ℕ)
    → i < length es
    → count (is_at a p) es ≤ 1
    → (is_at a p v ≡ true
        → count (is_at a p) es ≡ (if is_at a p (get_or es i no_entry) then 1 else 0))
    → latency_at a p (set es i v) ≡ (
        if is_at a p v
        then some v.latency_us
        else if is_at a p (get_or es i no_entry)
        then none
        else latency_at a p es)
latency_at-set a p v [] i h one only = absurd (omega arith)
latency_at-set a p v (e ∷ es) zero h one only = ground (arith, one, latency_of_absent a p es)
latency_at-set a p v (e ∷ es) (suc i) h one only = elim (Bool-cases (is_at a p e)) [
  | inl at ↦
      let none_left : count (is_at a p) es ≡ 0 = ground (arith, one, at) in
      let away : is_at a p (get_or es i no_entry) ≡ false =
        ground (arith, none_left, count_of_get (is_at a p) es i no_entry (omega arith)) in
      ground (arith, at, away, none_left, only)
  | inr away ↦
      let tail : latency_at a p (set es i v) ≡ _ =
        latency_at-set a p v es i (omega arith) (ground (arith, one))
          (ground (arith, only, away)) in
      ground (arith, away, tail)
]

pub count_same :
    (a p b q : ℕ) (es : List Entry)
    → (a == b && p == q) ≡ true
    → count (is_at a p) es ≡ count (is_at b q) es
count_same a p b q es h =
    let at : a ≡ b = ground (arith, h) in
    let through : p ≡ q = ground (arith, h) in
    ap (λ x. count (is_at x p) es) at ∙ ap (λ x. count (is_at b x) es) through

pub get_absent :
    (cache : Cache) (node : Node)
    → find (is_at node.addr node.port) cache.entries ≡ none
    → get cache node ≡ none
unfolding get
get_absent cache node f = ground (arith, f)

pub get_present :
    (cache : Cache) (node : Node) (i : ℕ)
    → find (is_at node.addr node.port) cache.entries ≡ some i
    → get cache node ≡ some (get_or cache.entries i no_entry).latency_us
unfolding get
get_present cache node i f = ground (arith, f)
