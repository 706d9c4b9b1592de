-- ===== src/Cbor/Tree.antt =====
-- Items as trees: functions that keep the laws.
use poseidon.Prelude.{
  ℕ, ◌<◌, ◌≤◌, ◌≡◌, refl, ap, ◌∙◌, true, false, Option, none, some, List, [], ◌∷◌, ◌++◌, ◌==◌,
  length, arith, ltb, if◌then◌else◌, lt→ltb,
}
use poseidon.Prelude.Outcome.{Outcome, overrun, done}
use poseidon.Cbor.{Cbor, Width, bits, bits8, bits16, bits32, bits64}
use poseidon.Cbor.Laws.{CborLaws, IsArray}

mutual
  pub data Item : Type 0 where
    uint : Width → ℕ → Item
    text : List ℕ → Item
    bytes : List ℕ → Item
    array : ℕ → Items → Item

  pub data Items : Type 0 where
    no_items : Items
    item : Item → Items → Items

abbrev items_of : Items → List Item
items_of no_items = []
items_of (item x xs) = x ∷ items_of xs

abbrev of_list : List Item → Items
of_list [] = no_items
of_list (x ∷ xs) = item x (of_list xs)

-- A full array.
abbrev pub packed : List Item → Item
packed xs = array (length xs) (of_list xs)

abbrev add_last : Items → Item → Items
add_last no_items x = item x no_items
add_last (item y ys) x = item y (add_last ys x)

abbrev push : Item → Item → Option Item
push (array n xs) x = if ltb (length (items_of xs)) n then some (array n (add_last xs x)) else none
push _ x = none

abbrev array_items : Item → Outcome (List Item)
array_items (array n xs) = done (items_of xs)
array_items _ = overrun

abbrev get_uint : Width → Item → Outcome ℕ
get_uint w (uint other v) = if bits w == bits other then done v else overrun
get_uint w _ = overrun

abbrev pub tree : Cbor
tree = record {
  Item = Item;
  new_array = λ n. array n no_items;
  push = push;
  is_array = λ a. elim a [ array n xs ↦ true | _ ↦ false ];
  is_definite = λ a. elim a [ array n xs ↦ done true | _ ↦ overrun ];
  array_size = λ a. elim a [ array n xs ↦ done (length (items_of xs)) | _ ↦ overrun ];
  array_items = array_items;
  build_uint = uint;
  is_uint = λ a. elim a [ uint w v ↦ true | _ ↦ false ];
  get_uint = get_uint;
  build_string = text;
  is_string = λ a. elim a [ text s ↦ true | _ ↦ false ];
  string_bytes = λ a. elim a [ text s ↦ done s | _ ↦ overrun ];
  build_bytestring = bytes;
  is_bytestring = λ a. elim a [ bytes s ↦ true | _ ↦ false ];
  bytestring_bytes = λ a. elim a [ bytes s ↦ done s | _ ↦ overrun ];
}

abbrev allocated : Item → ℕ
allocated (array n xs) = n
allocated _ = 0

add_last_lem : (xs : Items) (x : Item) → items_of (add_last xs x) ≡ items_of xs ++ x ∷ []
add_last_lem no_items x = refl
add_last_lem (item y ys) x = ap {B = List Item} (◌∷◌ y) (add_last_lem ys x)

same_width : (w : Width) (v : ℕ) → get_uint w (uint w v) ≡ done v
same_width bits8 v = refl
same_width bits16 v = refl
same_width bits32 v = refl
same_width bits64 v = refl

abbrev held : Outcome (List Item) → List Item
held (done xs) = xs
held _ = []

-- An item that holds items is an array.
array_lem :
    (a : Item) (xs : List Item)
    → array_items a ≡ done xs
    → (n : ℕ) × (ys : Items) × (a ≡ array n ys) × (items_of ys ≡ xs)
array_lem (array n ys) xs h = (n, ys, refl, ap held h)
array_lem (uint w v) xs h = absurd (ground (arith, h))
array_lem (text s) xs h = absurd (ground (arith, h))
array_lem (bytes s) xs h = absurd (ground (arith, h))

size_lem :
    (a : Item) (xs : List Item)
    → array_items a ≡ done xs
    → (tree.array_size a ≡ done (length xs)) × (tree.is_array a ≡ true)
size_lem a xs h =
    let (n, ys, shape, same) = array_lem a xs h in
    rw (shape) (ap {B = Outcome ℕ} (λ (zs : List Item). done (length zs)) same, refl)

push_room :
    (a x : Item) (xs : List Item)
    → array_items a ≡ done xs
    → length xs < allocated a
    → (b : Item) × (push a x ≡ some b)
      × (array_items b ≡ done (xs ++ x ∷ []))
      × (tree.is_definite b ≡ done true)
      × (allocated b ≡ allocated a)
push_room (array n ys) x xs h room =
    let same : items_of ys ≡ xs = ap held h in
    let free : length (items_of ys) < n = rw same room in
    (
      array n (add_last ys x),
      rw (lt→ltb (length (items_of ys)) n free) refl,
      ap done (add_last_lem ys x) ∙ ap {B = Outcome (List Item)} (λ zs. done (zs ++ x ∷ [])) same,
      refl,
      refl,
    )
push_room (uint w v) x xs h room = absurd (omega arith)
push_room (text s) x xs h room = absurd (omega arith)
push_room (bytes s) x xs h room = absurd (omega arith)

push_full :
    (a x : Item) (xs : List Item)
    → array_items a ≡ done xs
    → allocated a ≤ length xs
    → push a x ≡ none
push_full (array n ys) x xs h full =
    let same : items_of ys ≡ xs = ap held h in
    let none_left : n ≤ length (items_of ys) = rw same full in ground (arith, none_left)
push_full (uint w v) x xs h full = refl
push_full (text s) x xs h full = refl
push_full (bytes s) x xs h full = refl

pub tree_laws : CborLaws tree
tree_laws = record {
  allocated = allocated;
  new_allocated = λ n. refl;
  new_items = λ n. refl;
  new_definite = λ n. refl;
  push_room = λ a x xs d h room. push_room a x xs h room;
  push_full = λ a x xs d h full. push_full a x xs h full;
  size_lem = size_lem;
  uint_lem = λ w v h. (same_width w v, refl);
  width_lem = λ w other v h. ground (arith, h);
  string_lem = λ s. (refl, refl);
  bytestring_lem = λ s. (refl, refl);
}

of_list_lem : (xs : List Item) → items_of (of_list xs) ≡ xs
of_list_lem [] = refl
of_list_lem (x ∷ xs) = ap {B = List Item} (◌∷◌ x) (of_list_lem xs)

pub packed-IsArray : (xs : List Item) → IsArray tree tree_laws (packed xs) (length xs) xs
unfolding tree_laws
packed-IsArray xs = record { definite = refl; room = refl; holds = ap done (of_list_lem xs) }
