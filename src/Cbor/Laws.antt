-- ===== src/Cbor/Laws.antt =====
-- What the packets rely on in libcbor, and chains of pushes.
use poseidon.Prelude.{
  ℕ, ◌+◌, ◌<◌, ◌≤◌, ◌^◌, ◌≡◌, refl, sym, inl, inr, true, false, none, some, List, [], ◌∷◌, ◌++◌,
  ◌==◌, length, arith, length-append, append_assoc, append-nil, ltb, Bool-cases, ltb→lt,
}
use poseidon.Prelude.Outcome.{overrun, done}
use poseidon.Cbor.{Cbor, Width, bits, push_all}

pub record CborLaws (api : Cbor) : Type 1 where
  -- cbor_array_allocated
  pub allocated : api.Item → ℕ
  -- A new definite array has room for its size.
  pub new_allocated : (n : ℕ) → allocated (api.new_array n) ≡ n
  pub new_items : (n : ℕ) → api.array_items (api.new_array n) ≡ done []
  pub new_definite : (n : ℕ) → api.is_definite (api.new_array n) ≡ done true
  -- A push to a definite array succeeds exactly where there is room.
  pub push_room :
      (a x : api.Item) (xs : List api.Item)
      → api.is_definite a ≡ done true
      → api.array_items a ≡ done xs
      → length xs < allocated a
      → (b : api.Item) × (api.push a x ≡ some b)
        × (api.array_items b ≡ done (xs ++ x ∷ []))
        × (api.is_definite b ≡ done true)
        × (allocated b ≡ allocated a)
  pub push_full :
      (a x : api.Item) (xs : List api.Item)
      → api.is_definite a ≡ done true
      → api.array_items a ≡ done xs
      → allocated a ≤ length xs
      → api.push a x ≡ none
  pub size_lem :
      (a : api.Item) (xs : List api.Item)
      → api.array_items a ≡ done xs
      → (api.array_size a ≡ done (length xs)) × (api.is_array a ≡ true)
  pub uint_lem :
      (w : Width) (v : ℕ)
      → v < 2 ^ bits w
      → (api.get_uint w (api.build_uint w v) ≡ done v) × (api.is_uint (api.build_uint w v) ≡ true)
  -- A read at another width than that of the item breaks its assertion.
  pub width_lem :
      (w other : Width) (v : ℕ)
      → (bits w == bits other) ≡ false
      → api.get_uint w (api.build_uint other v) ≡ overrun
  pub string_lem :
      (s : List ℕ)
      → (api.string_bytes (api.build_string s) ≡ done s)
        × (api.is_string (api.build_string s) ≡ true)
  pub bytestring_lem :
      (s : List ℕ)
      → (api.bytestring_bytes (api.build_bytestring s) ≡ done s)
        × (api.is_bytestring (api.build_bytestring s) ≡ true)

module _ (api : Cbor) (laws : CborLaws api) where
  open api use {Item, new_array, push, is_definite, array_items}

  -- A definite array of `n` cells that holds some items.
  pub record IsArray (a : Item) (n : ℕ) (xs : List Item) : Type 0 where
    pub definite : is_definite a ≡ done true
    pub room : laws.allocated a ≡ n
    pub holds : array_items a ≡ done xs

  pub new_array-IsArray : (n : ℕ) → IsArray (new_array n) n []
  new_array-IsArray n = record {
    definite = laws.new_definite n;
    room = laws.new_allocated n;
    holds = laws.new_items n;
  }

  pub push-IsArray :
      (a x : Item) (n : ℕ) (xs : List Item)
      → IsArray a n xs
      → length xs < n
      → (b : Item) × (push a x ≡ some b) × IsArray b n (xs ++ x ∷ [])
  push-IsArray a x n xs h room =
      let (b, pushed, items, definite, kept) =
        laws.push_room a x xs h.definite h.holds (omega (arith, h.room)) in
      (b, pushed, record { definite = definite; room = omega (arith, kept, h.room); holds = items })

  pub push_all-IsArray :
      (a : Item) (n : ℕ) (xs ys : List Item)
      → IsArray a n xs
      → length xs + length ys ≤ n
      → (b : Item) × (push_all api a ys ≡ some b) × IsArray b n (xs ++ ys)
  unfolding push_all
  push_all-IsArray a n xs [] h fits = (a, refl, rw (append-nil xs) h)
  push_all-IsArray a n xs (y ∷ ys) h fits =
      let (b, pushed, next) = push-IsArray a y n xs h (omega arith) in
      let (c, rest, last) =
        push_all-IsArray b n (xs ++ y ∷ []) ys next (omega (arith, length-append xs (y ∷ []))) in
      (c, rw pushed rest, rw (sym (append_assoc xs (y ∷ []) ys)) last)

  pub push_all_full :
      (a : Item) (n : ℕ) (xs ys : List Item)
      → IsArray a n xs
      → length xs ≤ n
      → n < length xs + length ys
      → push_all api a ys ≡ none
  unfolding push_all
  push_all_full a n xs [] h small full = absurd (omega arith)
  push_all_full a n xs (y ∷ ys) h small full = elim (Bool-cases (ltb (length xs) n)) [
    | inl room ↦
        let (b, pushed, next) = push-IsArray a y n xs h (ltb→lt (length xs) n room) in
        rw pushed (
          push_all_full b n (xs ++ y ∷ []) ys next (ground (arith, room, length-append xs (y ∷ [])))
            (omega (arith, length-append xs (y ∷ []))))
    | inr none_left ↦
        rw (laws.push_full a y xs h.definite h.holds (ground (arith, none_left, h.room))) refl
  ]
