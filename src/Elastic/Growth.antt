-- ===== src/Elastic/Growth.antt =====
-- Runs of insertions, each of which may double the filter.
use native.Mathlib.Nat.{pow-suc, one-le-pow}
use poseidon.Prelude.{
  ℕ, zero, suc, ◌-◌, ◌+◌, ◌*◌, ◌%◌, ◌^◌, ◌≤◌, ◌<◌, ◌≡◌, ap, List, [], ◌∷◌, Bool, true, false, arith,
  if◌then◌else◌, if_intro,
}
use poseidon.Elastic.{Floats, Filter, expand, record_item, add, contains, ratio}
use poseidon.Elastic.Invariant.{IsConsistent}
use poseidon.Elastic.Keeps.{expand-IsConsistent, record_item-IsConsistent}
use poseidon.Elastic.Answers.{
  Records, contains_of_Records, record_item-Records_self, record_item-Records,
}
use poseidon.Elastic.Resize.{expand-Records}

module _ (floats : Floats) (xxh3 : List ℕ → ℕ → ℕ) where
  open floats use {Float, less}

  -- Items added one after the other.
  abbrev pub adds : Filter Float → List (List ℕ) → Filter Float
  adds e [] = e
  adds e (d ∷ ds) = adds (add floats xxh3 e d) ds

  -- In a consistent filter with a positive size, at least one bit of fingerprint and room to
  -- double in 64 bits, an item that was just added is found, whether or not the filter has
  -- doubled.
  pub contains-add_self :
      {e : Filter Float} (d : List ℕ)
      → IsConsistent e
      → 0 < e.size
      → e.size * 2 < 2 ^ 64
      → 1 ≤ e.fp_bits
      → contains floats xxh3 (add floats xxh3 e d) d ≡ true
  unfolding add
  contains-add_self {e} d c positive small digits =
      if_intro (λ (s : Filter Float). contains floats xxh3 s d ≡ true)
        (less (record_item floats xxh3 e d).omega (ratio floats (record_item floats xxh3 e d))) _ _
        (λ _.
          contains_of_Records floats xxh3 0 d
            (expand-IsConsistent floats (unfold record_item in small) recorded)
            (expand-Records floats xxh3 0 d (unfold record_item in positive)
              (unfold record_item in small) recorded
              (record_item-Records_self floats xxh3 d positive c 1 digits (omega arith))))
        (λ _.
          contains_of_Records floats xxh3 1 d recorded
            (record_item-Records_self floats xxh3 d positive c 1 digits (omega arith)))
    where
      recorded : IsConsistent (record_item floats xxh3 e d)
      recorded = record_item-IsConsistent floats xxh3 d positive c

  -- Whether an insertion ends in an expansion, and how many of a run do.
  abbrev pub doubles : Filter Float → List ℕ → Bool
  doubles e d =
      less (record_item floats xxh3 e d).omega (ratio floats (record_item floats xxh3 e d))

  abbrev pub doublings : Filter Float → List (List ℕ) → ℕ
  doublings e [] = 0
  doublings e (d ∷ ds) = (if doubles e d then 1 else 0) + doublings (add floats xxh3 e d) ds

  -- Item `x` is recorded to `p` digits, in a filter with room for `p` expansions.
  record Kept (p : ℕ) (e : Filter Float) (x : List ℕ) : Type 0 where
    consistent : IsConsistent e
    positive : 0 < e.size
    small : e.size * 2 ^ p < 2 ^ 64
    records : Records floats xxh3 p e x

  Kept-expand :
      {e : Filter Float} {x : List ℕ} (p : ℕ) → Kept (suc p) e x → Kept p (expand floats e) x
  Kept-expand {e} {x} p k = record {
    consistent = expand-IsConsistent floats room k.consistent;
    positive = unfold expand in (rw wrap (omega (arith, k.positive)));
    small = unfold expand in (rw wrap (omega (arith, total, k.small)));
    records = expand-Records floats xxh3 p x k.positive room k.consistent k.records;
  }
    where
      total : e.size * 2 ^ suc p ≡ e.size * 2 * 2 ^ p
      total = omega (arith, ap (λ (t : ℕ). e.size * t) (pow-suc 2 p))

      room : e.size * 2 < 2 ^ 64
      room = grind (arith, total, k.small, one-le-pow p 2)

      wrap : e.size * 2 % 2 ^ 64 ≡ e.size * 2
      wrap = omega (arith, room)

  Kept-record_item :
      {e : Filter Float} {x : List ℕ} (p : ℕ) (d : List ℕ)
      → Kept p e x
      → Kept p (record_item floats xxh3 e d) x
  Kept-record_item {e} {x} p d k = record {
    consistent = record_item-IsConsistent floats xxh3 d k.positive k.consistent;
    positive = unfold record_item in k.positive;
    small = unfold record_item in k.small;
    records = record_item-Records floats xxh3 d k.positive k.consistent p x k.records;
  }

  Kept-resize :
      {e : Filter Float} {x : List ℕ} (b : Bool) (p : ℕ)
      → (if b then 1 else 0) ≤ p
      → Kept p e x
      → Kept (p - (if b then 1 else 0)) (if b then expand floats e else e) x
  Kept-resize false p h k = let same : p - 0 ≡ p = omega arith in rw same k
  Kept-resize true zero h k = absurd (omega arith)
  Kept-resize {e} {x} true (suc p) h k =
      let same : suc p - 1 ≡ p = omega arith in rw same (Kept-expand p k)

  Kept-add :
      {e : Filter Float} {x : List ℕ} (p : ℕ) (d : List ℕ)
      → (if doubles e d then 1 else 0) ≤ p
      → Kept p e x
      → Kept (p - (if doubles e d then 1 else 0)) (add floats xxh3 e d) x
  unfolding add
  Kept-add {e} {x} p d h k = Kept-resize (doubles e d) p h (Kept-record_item p d k)

  Kept-adds :
      {e : Filter Float} {x : List ℕ} (p : ℕ) (ds : List (List ℕ))
      → doublings e ds ≤ p
      → Kept p e x
      → Kept (p - doublings e ds) (adds e ds) x
  Kept-adds p [] h k = let same : p - 0 ≡ p = omega arith in rw same k
  Kept-adds {e} {x} p (d ∷ ds) h k =
      let now : ℕ = if doubles e d then 1 else 0 in
      let later : ℕ = doublings (add floats xxh3 e d) ds in
      let split : p - (now + later) ≡ p - now - later = omega arith in
      rw split (
        Kept-adds {e = add floats xxh3 e d} (p - now) ds (omega arith)
          (Kept-add p d (omega arith) k))

  Kept-self :
      {e : Filter Float} (d : List ℕ)
      → IsConsistent e
      → 0 < e.size
      → e.size * 2 ^ e.fp_bits < 2 ^ 64
      → e.fp_bits ≤ 32
      → Kept e.fp_bits (record_item floats xxh3 e d) d
  Kept-self {e} d c positive small narrow = record {
    consistent = record_item-IsConsistent floats xxh3 d positive c;
    positive = unfold record_item in positive;
    small = unfold record_item in small;
    records = record_item-Records_self floats xxh3 d positive c e.fp_bits (omega arith) narrow;
  }

  -- In a consistent filter with a positive size, at most 32 bits of fingerprint and room for
  -- `fp_bits` doublings in 64 bits, an item is found after it is added and any further items are
  -- added, as long as at most `fp_bits` of the insertions double the filter.
  pub contains-adds :
      {e : Filter Float} (x : List ℕ) (ds : List (List ℕ))
      → IsConsistent e
      → 0 < e.size
      → e.size * 2 ^ e.fp_bits < 2 ^ 64
      → e.fp_bits ≤ 32
      → doublings e (x ∷ ds) ≤ e.fp_bits
      → contains floats xxh3 (adds e (x ∷ ds)) x ≡ true
  contains-adds {e} x ds c positive small narrow few =
      contains_of_Records floats xxh3 _ x kept.consistent kept.records
    where
      now : ℕ
      now = if doubles e x then 1 else 0

      added : Kept (e.fp_bits - now) (add floats xxh3 e x) x
      added =
          unfold add in
          (Kept-resize (doubles e x) e.fp_bits (omega arith) (Kept-self x c positive small narrow))

      kept : Kept (e.fp_bits - now - doublings (add floats xxh3 e x) ds) (adds e (x ∷ ds)) x
      kept = Kept-adds (e.fp_bits - now) ds (omega arith) added
