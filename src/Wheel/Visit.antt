-- ===== src/Wheel/Visit.antt =====
-- What a visit of the timer list of a slot does to one timer.
use mathlib.Core.Path.{subst}
use poseidon.Prelude.{
  zero, ◌-◌, ◌≤◌, ◌≡◌, refl, ◌⊎◌, inl, inr, true, false, List, [], ◌∷◌, ◌++◌, arith, if◌then◌else◌,
  Bool-cases,
}
use poseidon.Wheel.{Timer, circles, maintenance}

-- Membership.
abbrev pub In : Timer → List Timer → Type 0
In t [] = zero ≡ 1
In t (x ∷ xs) = (t ≡ x) ⊎ In t xs

pub In-snoc : (t : Timer) (xs : List Timer) → In t (xs ++ t ∷ [])
In-snoc t [] = inl refl
In-snoc t (x ∷ xs) = inr (In-snoc t xs)

-- The timer after its list was visited.
abbrev pub turned : Timer → Timer
turned t = if circles t.circle then record t { circle = t.circle - 1 } else t

-- What the visit of the rest gives stands in what the visit of the whole list gives.
maintenance-In :
    (t x : Timer) (list : List Timer)
    → (In t (maintenance list).0 → In t (maintenance (x ∷ list)).0)
      × (In t (maintenance list).1 → In t (maintenance (x ∷ list)).1)
unfolding maintenance
maintenance-In t x list = elim (Bool-cases x.removed) [
  | inl e ↦ rw e (λ h. h, λ h. h)
  | inr e ↦ elim (Bool-cases (circles x.circle)) [
    | inl f ↦ elim (Bool-cases (circles (x.circle - 1))) [
      | inl g ↦ rw (e, f, g) (λ h. h, inr)
      | inr g ↦ rw (e, f, g) (inr, λ h. h)
    ]
    | inr f ↦ rw (e, f) (inr, λ h. h)
  ]
]

-- A timer with more than one circle left stays, with one circle less.
pub maintenance_stays :
    (t : Timer) (list : List Timer)
    → In t list
    → t.removed ≡ false
    → circles t.circle ≡ true
    → circles (t.circle - 1) ≡ true
    → In (record t { circle = t.circle - 1 }) (maintenance list).1
unfolding maintenance
maintenance_stays t [] h p q r = absurd (omega arith)
maintenance_stays t (x ∷ list) (inl e) p q r =
    subst (λ (y : Timer). In (record t { circle = t.circle - 1 }) (maintenance (y ∷ list)).1) e
      (rw (p, q, r) (inl refl))
maintenance_stays t (x ∷ list) (inr h) p q r =
    (maintenance-In (record t { circle = t.circle - 1 }) x list).1
      (maintenance_stays t list h p q r)

-- A timer with one circle left, or none, expires.
pub maintenance_expires :
    (t : Timer) (list : List Timer)
    → In t list
    → t.removed ≡ false
    → t.circle ≤ 1
    → In (turned t) (maintenance list).0
unfolding maintenance
maintenance_expires t [] h p q = absurd (omega arith)
maintenance_expires t (x ∷ list) (inl e) p q =
    subst (λ (y : Timer). In (turned t) (maintenance (y ∷ list)).0) e
      (elim (Bool-cases (circles t.circle)) [
        | inl f ↦
            let last : circles (t.circle - 1) ≡ false = ground arith in rw (p, f, last) (inl refl)
        | inr f ↦ rw (p, f) (inl refl)
      ])
maintenance_expires t (x ∷ list) (inr h) p q =
    (maintenance-In (turned t) x list).0 (maintenance_expires t list h p q)
