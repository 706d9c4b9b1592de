-- ===== src/Cbor.antt =====
-- The functions of libcbor that the packets use. An access is `overrun` where libcbor asserts that
-- the item is of another kind or width, since the code is then outside its object.
pub mod Laws
pub mod Tree
use poseidon.Prelude.{
  ℕ, zero, suc, ◌<◌, ◌≤◌, ◌^◌, ◌≡◌, Bool, true, false, Option, none, some, List, [], ◌∷◌, ◌++◌,
  ◌==◌, length, ◌>>=◌,
}
use poseidon.Prelude.Outcome.{Outcome, overrun, done}

-- `cbor_int_width`
pub data Width : Type 0 where
  bits8 bits16 bits32 bits64 : Width

abbrev pub bits : Width → ℕ
bits bits8 = 8
bits bits16 = 16
bits bits32 = 32
bits bits64 = 64

-- `push` is cbor_array_push, with `none` where it returns false; `array_items` is cbor_array_handle
-- up to the size; the accesses to strings are their handle and length.
pub record Cbor : Type 1 where
  pub Item : Type 0
  pub new_array : ℕ → Item
  pub push : Item → Item → Option Item
  pub is_array : Item → Bool
  pub is_definite : Item → Outcome Bool
  pub array_size : Item → Outcome ℕ
  pub array_items : Item → Outcome (List Item)
  pub build_uint : Width → ℕ → Item
  pub is_uint : Item → Bool
  pub get_uint : Width → Item → Outcome ℕ
  pub build_string : List ℕ → Item
  pub is_string : Item → Bool
  pub string_bytes : Item → Outcome (List ℕ)
  pub build_bytestring : List ℕ → Item
  pub is_bytestring : Item → Bool
  pub bytestring_bytes : Item → Outcome (List ℕ)

-- `items[i]`
abbrev pub item_at {ℓ} : {A : Type ℓ} → List A → ℕ → Outcome A
item_at [] i = overrun
item_at (x ∷ xs) zero = done x
item_at (x ∷ xs) (suc i) = item_at xs i

abbrev pub and_then {ℓ κ} : {A : Type ℓ} {B : Type κ} → Option A → (A → Option B) → Option B
and_then o f = o >>= f

-- A chain of pushes, each of which ends the encoding where it fails.
unfoldable pub push_all : (api : Cbor) → api.Item → List api.Item → Option api.Item
push_all api array [] = some array
push_all api array (item ∷ items) = api.push array item >>= λ more. push_all api more items
