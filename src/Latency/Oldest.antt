-- ===== src/Latency/Oldest.antt =====
-- The entry that a full cache evicts.
use mathlib.Core.Path.{subst}
use poseidon.Prelude.{
  ℕ, zero, suc, ◌+◌, ◌≤◌, ◌<◌, ◌≡◌, refl, sym, ◌⊎◌, inl, inr, List, [], ◌∷◌, arith, ltb, ltb→lt,
  Bool-cases, length, get_or,
}
use poseidon.Latency.{Entry, no_entry, oldest_loop}

-- Every entry is at least as new as `t`.
abbrev pub AllSince : ℕ → List Entry → Type 0
AllSince t [] = zero ≡ zero
AllSince t (e ∷ es) = (t ≤ e.timestamp) × AllSince t es

AllSince-le : (t u : ℕ) (es : List Entry) → t ≤ u → AllSince u es → AllSince t es
AllSince-le t u [] h k = refl
AllSince-le t u (e ∷ es) h (k, ks) = (omega arith, AllSince-le t u es h ks)

-- The loop keeps the index it has, or ends at an oldest entry of the rest.
oldest_loop_lem :
    (es : List Entry) (i idx t : ℕ)
    → ((oldest_loop es i idx t ≡ idx) × AllSince t es)
      ⊎ ((k : ℕ) × (oldest_loop es i idx t ≡ i + k)
          × (k < length es)
          × ((get_or es k no_entry).timestamp < t)
          × AllSince (get_or es k no_entry).timestamp es)
unfolding oldest_loop
oldest_loop_lem [] i idx t = inl (refl, refl)
oldest_loop_lem (e ∷ es) i idx t = elim (Bool-cases (ltb e.timestamp t)) [
  | inl older ↦
      let less : e.timestamp < t = ltb→lt e.timestamp t older in
      rw older (elim (oldest_loop_lem es (suc i) i e.timestamp) [
        | inl (eq, all) ↦ inr (0, omega (arith, eq), omega arith, less, (omega arith, all))
        | inr (k, eq, bound, lower, all) ↦ inr (
          suc k,
          omega (arith, eq),
          omega (arith, bound),
          omega (arith, lower, less),
          (omega (arith, lower), all),
        )
      ])
  | inr newer ↦
      let more : t ≤ e.timestamp = ground (arith, newer) in
      rw newer (elim (oldest_loop_lem es (suc i) idx t) [
        | inl (eq, all) ↦ inl (eq, (more, all))
        | inr (k, eq, bound, lower, all) ↦ inr (
          suc k,
          omega (arith, eq),
          omega (arith, bound),
          lower,
          (omega (arith, lower, more), all),
        )
      ])
]

pub oldest_lt : (es : List Entry) (start : ℕ) → 0 < length es → oldest_loop es 0 0 start < length es
oldest_lt es start h = elim (oldest_loop_lem es 0 0 start) [
  | inl (eq, all) ↦ omega (arith, eq)
  | inr (k, eq, bound, lower, all) ↦ omega (arith, eq, bound)
]

-- No entry is newer than `t`.
abbrev pub AllUntil : ℕ → List Entry → Type 0
AllUntil t [] = zero ≡ zero
AllUntil t (e ∷ es) = (e.timestamp ≤ t) × AllUntil t es

-- `m` is the index of an entry that is at least as old as every other, where there are entries.
abbrev pub IsOldest : List Entry → ℕ → Type 0
IsOldest es m = (0 < length es → m < length es) × AllSince (get_or es m no_entry).timestamp es

first_le : (t : ℕ) (es : List Entry) → AllUntil t es → (get_or es 0 no_entry).timestamp ≤ t
first_le t [] h = omega arith
first_le t (e ∷ es) (h, hs) = h

pub oldest_loop-IsOldest :
    (es : List Entry) (start : ℕ) → AllUntil start es → IsOldest es (oldest_loop es 0 0 start)
oldest_loop-IsOldest es start until = elim (oldest_loop_lem es 0 0 start) [
  | inl (eq, all) ↦
      subst (IsOldest es) (sym eq) (
        λ h. h,
        AllSince-le (get_or es 0 no_entry).timestamp start es (first_le start es until) all,
      )
  | inr (k, eq, bound, lower, all) ↦
      let at : oldest_loop es 0 0 start ≡ k = omega (arith, eq) in
      subst (IsOldest es) (sym at) (λ h. bound, all)
]
