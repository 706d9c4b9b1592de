-- ===== src/Base58.antt =====
-- src/Util/base58.c: the big integers of the Base58 code, little-endian lists of bytes, and the
-- encoding and decoding of byte strings.
pub mod Value
pub mod Digits
pub mod Leading
pub mod Text
pub mod Codec
mod Tests
use poseidon.Prelude.{
  ℕ, zero, suc, ◌+◌, ◌*◌, ◌/◌, ◌%◌, ◌^◌, List, [], ◌∷◌, ◌==◌, if◌then◌else◌, ltb, Option, replicate,
  length, some, get_or, none, drop, leb, ◌>>=◌, ◌++◌, map, reverse,
}

-- The loop that appends a carry, `while (carry > 0)`, for at most `n` rounds.
unfoldable pub push_carry : ℕ → ℕ → List ℕ
push_carry zero carry = []
push_carry (suc n) carry =
    let rest = push_carry n (carry / 256) in if ltb 0 carry then carry % 256 ∷ rest else []

-- bigint_multiply from a carry on; a carry of 32 bits takes four rounds.
unfoldable pub multiply : List ℕ → ℕ → ℕ → List ℕ
multiply [] factor carry = push_carry 4 carry
multiply (b ∷ result) factor carry =
    let val = (b * factor + carry) % 2 ^ 32 in val % 256 ∷ multiply result factor (val / 256)

-- bigint_add
unfoldable pub add : List ℕ → ℕ → List ℕ
add [] carry = push_carry 4 carry
add (b ∷ result) carry =
    let val = (b + carry) % 2 ^ 32 in
    let rest = add result (val / 256) in if ltb 0 carry then val % 256 ∷ rest else b ∷ result

-- The loop of bigint_divmod, from the highest byte down: the quotient's bytes and the remainder.
unfoldable pub divide : List ℕ → ℕ → List ℕ × ℕ
divide [] divisor = ([], 0)
divide (b ∷ result) divisor =
    let (quotient, remainder) = divide result divisor in
    let val = (remainder * 256 + b) % 2 ^ 32 in (val / divisor % 256 ∷ quotient, val % divisor)

-- The loop that drops zeros at the top.
unfoldable pub trim : List ℕ → List ℕ
trim [] = []
trim (b ∷ result) = elim (trim result) [
  | [] ↦ if b == 0 then [] else b ∷ []
  | c ∷ rest ↦ b ∷ c ∷ rest
]

-- bigint_divmod
unfoldable pub divmod : List ℕ → ℕ → List ℕ × ℕ
divmod result divisor =
    let (quotient, remainder) = divide result divisor in (trim quotient, remainder % 256)

-- BASE58_ALPHABET, by character codes.
abbrev pub alphabet : List ℕ
alphabet =
    49 ∷ 50 ∷ 51 ∷ 52 ∷ 53 ∷ 54 ∷ 55 ∷ 56 ∷ 57 ∷ 65 ∷ 66 ∷ 67 ∷ 68 ∷ 69 ∷ 70 ∷ 71 ∷ 72 ∷ 74 ∷ 75
    ∷ 76 ∷ 77 ∷ 78 ∷ 80 ∷ 81 ∷ 82 ∷ 83 ∷ 84 ∷ 85 ∷ 86 ∷ 87 ∷ 88 ∷ 89 ∷ 90 ∷ 97 ∷ 98 ∷ 99 ∷ 100 ∷ 101
    ∷ 102 ∷ 103 ∷ 104 ∷ 105 ∷ 106 ∷ 107 ∷ 109 ∷ 110 ∷ 111 ∷ 112 ∷ 113 ∷ 114 ∷ 115 ∷ 116 ∷ 117 ∷ 118
    ∷ 119 ∷ 120 ∷ 121 ∷ 122 ∷ []

-- BASE58_MAP, with the bytes of its int8_t values: -1 is 255. The second half of the table is -1.
abbrev pub base58_map : List ℕ
base58_map =
    255
    ∷ 255
    ∷ 255
    ∷ 255
    ∷ 255
    ∷ 255
    ∷ 255
    ∷ 255
    ∷ 255
    ∷ 255
    ∷ 255
    ∷ 255
    ∷ 255
    ∷ 255
    ∷ 255
    ∷ 255
    ∷ 255
    ∷ 255
    ∷ 255
    ∷ 255
    ∷ 255
    ∷ 255
    ∷ 255
    ∷ 255
    ∷ 255
    ∷ 255
    ∷ 255
    ∷ 255
    ∷ 255
    ∷ 255
    ∷ 255
    ∷ 255
    ∷ 255
    ∷ 255
    ∷ 255
    ∷ 255
    ∷ 255
    ∷ 255
    ∷ 255
    ∷ 255
    ∷ 255
    ∷ 255
    ∷ 255
    ∷ 255
    ∷ 255
    ∷ 255
    ∷ 255
    ∷ 255
    ∷ 255
    ∷ 0
    ∷ 1
    ∷ 2
    ∷ 3
    ∷ 4
    ∷ 5
    ∷ 6
    ∷ 7
    ∷ 8
    ∷ 255
    ∷ 255
    ∷ 255
    ∷ 255
    ∷ 255
    ∷ 255
    ∷ 255
    ∷ 9
    ∷ 10
    ∷ 11
    ∷ 12
    ∷ 13
    ∷ 14
    ∷ 15
    ∷ 16
    ∷ 255
    ∷ 17
    ∷ 18
    ∷ 19
    ∷ 20
    ∷ 21
    ∷ 255
    ∷ 22
    ∷ 23
    ∷ 24
    ∷ 25
    ∷ 26
    ∷ 27
    ∷ 28
    ∷ 29
    ∷ 30
    ∷ 31
    ∷ 32
    ∷ 255
    ∷ 255
    ∷ 255
    ∷ 255
    ∷ 255
    ∷ 255
    ∷ 33
    ∷ 34
    ∷ 35
    ∷ 36
    ∷ 37
    ∷ 38
    ∷ 39
    ∷ 40
    ∷ 41
    ∷ 42
    ∷ 43
    ∷ 255
    ∷ 44
    ∷ 45
    ∷ 46
    ∷ 47
    ∷ 48
    ∷ 49
    ∷ 50
    ∷ 51
    ∷ 52
    ∷ 53
    ∷ 54
    ∷ 55
    ∷ 56
    ∷ 57
    ∷ 255
    ∷ 255
    ∷ 255
    ∷ 255
    ∷ 255
    ∷ replicate 128 255

-- The size of the three buffers, BIGINT_SIZE.
abbrev pub bigint_size : ℕ
bigint_size = 200

-- `while (i < len && data[i] == c) i++;`
unfoldable pub leading : ℕ → List ℕ → ℕ
leading c [] = 0
leading c (b ∷ data_left) = if b == c then suc (leading c data_left) else 0

-- The loop that reads big-endian digits into a big integer.
unfoldable pub load : ℕ → List ℕ → List ℕ → List ℕ
load base [] bigint = bigint
load base (d ∷ digits) bigint = load base digits (add (multiply bigint base 0) d)

-- `while (bigint_len > 0) digits[digits_len++] = bigint_divmod(bigint, &bigint_len, base);`, where
-- the output buffer has room for `n` more; `none` stands for a write past its end.
unfoldable pub extract : ℕ → ℕ → List ℕ → Option (List ℕ)
extract n base [] = some []
extract zero base (b ∷ bigint) = none
extract (suc n) base (b ∷ bigint) =
    let (quotient, remainder) = divmod (b ∷ bigint) base in
    extract n base quotient >>= λ digits. some (remainder ∷ digits)

-- base58_encode, with the text that it returns the length of; `none` stands for -1.
unfoldable pub encode : List ℕ → ℕ → Option (List ℕ)
encode input output_size =
    if length input == 0
    then if ltb output_size 1 then none else some []
    else if ltb (bigint_size / 2) (length input)
    then none
    else let leading_zeros = leading 0 input in
      extract bigint_size 58 (load 256 input []) >>= λ digits.
      if ltb output_size (leading_zeros + length digits)
      then none
      else some (replicate leading_zeros 49 ++ map (λ d. get_or alphabet d 0) (reverse digits))

-- The loop of base58_decode, with its table lookup.
unfoldable pub read_text : List ℕ → List ℕ → Option (List ℕ)
read_text [] bigint = some bigint
read_text (c ∷ input) bigint =
    let val = get_or base58_map c 255 in
    if leb 128 val then none else read_text input (add (multiply bigint 58 0) val)

-- base58_decode, with the bytes that it writes.
unfoldable pub decode : List ℕ → ℕ → Option (List ℕ)
decode input output_size =
    if length input == 0
    then some []
    else if ltb bigint_size (length input)
    then none
    else let leading_ones = leading 49 input in
      read_text (drop leading_ones input) [] >>= λ bigint.
      extract bigint_size 256 bigint >>= λ bytes.
      if ltb output_size (leading_ones + length bytes)
      then none
      else some (replicate leading_ones 0 ++ reverse bytes)
