-- ===== src/Prelude/Outcome.antt =====
-- What a read of foreign memory comes to: the code refuses the input, it reads past the end of an
-- object, or it is done.
use poseidon.Prelude.{
  suc, Bool, true, false, List, ℕ, ◌+◌, ◌≡◌, ◌≤◌, ◌∙◌, refl, ap, leb, length, take, drop,
  if◌then◌else◌, arith, Bool-cases, inl, inr, ◌++◌, length-append, [], ◌∷◌,
}

pub data Outcome {ℓ} (A : Type ℓ) : Type ℓ where
  refused overrun : Outcome A
  done : A → Outcome A

infixl 5 ◌>>=◌ ◌>>◌
abbrev pub ◌>>=◌ {ℓ κ} : {A : Type ℓ} {B : Type κ} → Outcome A → (A → Outcome B) → Outcome B
refused >>= f = refused
overrun >>= f = overrun
done a >>= f = f a

abbrev pub ◌>>◌ {ℓ} : {B : Type ℓ} → Outcome (Unit {0}) → Outcome B → Outcome B
m >> k = m >>= λ _. k

-- `if (!test) return NULL;`
abbrev pub guard : Bool → Outcome (Unit {0})
guard true = done tt
guard false = refused

-- `n` bytes from an offset.
unfoldable pub read_bytes : List ℕ → ℕ → ℕ → Outcome (List ℕ)
read_bytes bytes offset n =
    if leb (offset + n) (length bytes) then done (take n (drop offset bytes)) else overrun

-- Nothing was read past the end of an object.
abbrev pub is_safe {ℓ} : {A : Type ℓ} → Outcome A → Bool
is_safe overrun = false
is_safe _ = true

pub is_safe->>= {ℓ κ} :
    {A : Type ℓ} {B : Type κ} (m : Outcome A) (f : A → Outcome B)
    → is_safe m ≡ true
    → ((a : A) → m ≡ done a → is_safe (f a) ≡ true)
    → is_safe (m >>= f) ≡ true
is_safe->>= refused f h k = refl
is_safe->>= overrun f h k = ground (arith, h)
is_safe->>= (done a) f h k = k a refl

pub is_safe-guard {ℓ} :
    {B : Type ℓ} (test : Bool) (m : Outcome B)
    → (test ≡ true → is_safe m ≡ true)
    → is_safe (guard test >> m) ≡ true
is_safe-guard true m h = h refl
is_safe-guard false m h = refl

pub read_bytes-fits :
    (bytes : List ℕ) (offset n : ℕ)
    → offset + n ≤ length bytes
    → read_bytes bytes offset n ≡ done (take n (drop offset bytes))
unfolding read_bytes
read_bytes-fits bytes offset n h = ground (arith, h)

take_here : (xs ys : List ℕ) → take (length xs) (xs ++ ys) ≡ xs
take_here [] ys = refl
take_here (x ∷ xs) ys = ap {B = List ℕ} (◌∷◌ x) (take_here xs ys)

pub drop-append : (xs ys : List ℕ) (k : ℕ) → drop (length xs + k) (xs ++ ys) ≡ drop k ys
drop-append [] ys k = ap {B = List ℕ} (λ (j : ℕ). drop j ys) (omega arith)
drop-append (x ∷ xs) ys k =
    let e : length (x ∷ xs) + k ≡ suc (length xs + k) = omega arith in
    ap {B = List ℕ} (λ (j : ℕ). drop j (x ∷ (xs ++ ys))) e ∙ drop-append xs ys k

-- A part of a text is read where it stands.
pub read_bytes-here : (xs ys : List ℕ) → read_bytes (xs ++ ys) 0 (length xs) ≡ done xs
read_bytes-here xs ys =
    read_bytes-fits (xs ++ ys) 0 (length xs) (omega (arith, length-append xs ys))
    ∙ ap done (take_here xs ys)

pub read_bytes-skip :
    (xs ys : List ℕ) (offset n : ℕ)
    → read_bytes (xs ++ ys) (length xs + offset) n ≡ read_bytes ys offset n
unfolding read_bytes
read_bytes-skip xs ys offset n = elim (Bool-cases (leb (offset + n) (length ys))) [
  | inl e ↦ ground (arith, e, length-append xs ys, drop-append xs ys offset)
  | inr e ↦ ground (arith, e, length-append xs ys)
]
