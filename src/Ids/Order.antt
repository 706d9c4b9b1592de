-- ===== src/Ids/Order.antt =====
-- The order of identifiers, and the identifiers that the generators give.
use poseidon.Prelude.{ℕ, ◌+◌, ◌%◌, ◌^◌, ◌≤◌, ◌<◌, ◌≡◌, ◌⊎◌, ◌↔◌, arith, Ordering}
use poseidon.Ids.{MessageId, get_next, compare, batch_size, advance_to}

abbrev pub flip : Ordering → Ordering
flip Ordering.lt = Ordering.gt
flip Ordering.eq = Ordering.eq
flip Ordering.gt = Ordering.lt

-- Swapping the identifiers swaps the answer.
pub compare-flip : (a b : MessageId) → compare b a ≡ flip (compare a b)
unfolding compare
compare-flip a b = ground arith

-- Identifiers compare as equal exactly where they are the same.
pub compare_eq_iff : (a b : MessageId) → (compare a b ≡ Ordering.eq) ↔ (a ≡ b)
unfolding compare
compare_eq_iff a b = ground arith

pub compare_trans :
    (a b c : MessageId)
    → compare a b ≡ Ordering.lt
    → compare b c ≡ Ordering.lt
    → compare a c ≡ Ordering.lt
unfolding compare
compare_trans a b c h k = ground (arith, h, k)

-- While the clock does not go back and the counter does not wrap, an identifier compares below the
-- next one.
pub compare-get_next :
    (t n t' n' counter : ℕ)
    → (t < t') ⊎ ((t ≡ t') × (n ≤ n'))
    → counter + 1 < 2 ^ 64
    → compare (get_next t n counter).0 (get_next t' n' (get_next t n counter).1).0 ≡ Ordering.lt
unfolding compare get_next
compare-get_next t n t' n' counter clock h =
    let next : (counter + 1) % 2 ^ 64 ≡ counter + 1 = omega arith in rw next (ground (arith, clock))

-- The counter never goes back, and without a wrap it ends above the target's.
pub advance_to_lem :
    (counter : ℕ) (current target : MessageId)
    → (counter ≤ (advance_to counter current target).0)
      × (target.count + batch_size < 2 ^ 64
          → target.count + batch_size ≤ (advance_to counter current target).0)
unfolding advance_to
advance_to_lem counter current target = (
  ground arith,
  λ h.
      let whole : (target.count + batch_size) % 2 ^ 64 ≡ target.count + batch_size = omega arith in
      rw whole (ground arith),
)
