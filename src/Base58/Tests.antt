-- ===== src/Base58/Tests.antt =====
-- The number 300, as the bytes 44 and 1, and a string of four bytes.
use poseidon.Prelude.{ℕ, ◌≤◌, ◌≡◌, refl, some, List, [], ◌∷◌, arith, length}
use poseidon.Base58.{
  multiply, encode, decode, extract, load, add, push_carry, divmod, trim, divide, leading,
}
use poseidon.Base58.Value.{numeral, value, AllBelow, AllBytes, Trimmed}
use poseidon.Base58.Digits.{extract_lem}
use poseidon.Base58.Codec.{decode-encode}

abbrev three_hundred : List ℕ
three_hundred = 44 ∷ 1 ∷ []

bytes : AllBytes three_hundred
bytes = (omega arith, (omega arith, refl))

abbrev some_bytes : List ℕ
some_bytes = 0 ∷ 0 ∷ 1 ∷ 44 ∷ []

-- "116B"
encode_test : encode some_bytes 8 ≡ some (49 ∷ 49 ∷ 54 ∷ 66 ∷ [])
unfolding encode extract load add multiply push_carry divmod trim divide leading
encode_test = refl

decode-encode_example :
    (text : List ℕ) × (encode some_bytes 8 ≡ some text) × (decode text 4 ≡ some some_bytes)
decode-encode_example =
    decode-encode some_bytes 8 4 (omega arith, (omega arith, (omega arith, (omega arith, refl))))
      (omega arith) (omega arith) (omega arith) (omega arith)

extract_lem_example :
    (digits : List ℕ) × (extract 2 58 three_hundred ≡ some digits)
    × (numeral 58 digits ≡ value three_hundred)
    × AllBelow 58 digits
    × Trimmed 58 digits
    × (length digits ≤ 2)
extract_lem_example =
    extract_lem 58 (omega arith) (omega arith) 2 three_hundred
      (bytes, (omega arith, (omega arith, refl))) (omega arith)
