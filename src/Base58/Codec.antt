-- ===== src/Base58/Codec.antt =====
-- base58_encode and base58_decode of src/Util/base58.c.
use native.Mathlib.Nat.{pow-le-pow_right}
use poseidon.Prelude.{
  ℕ, ◌+◌, ◌/◌, ◌^◌, ◌≤◌, ◌<◌, ◌≡◌, refl, sym, ap, ◌∙◌, false, Option, some, List, [], ◌∷◌, ◌++◌,
  arith, ltb, ◌==◌, length, get_or, drop, reverse, replicate, length-append, length-replicate,
  length-drop, length-map, length-reverse, reverse-reverse,
}
use poseidon.Base58.{alphabet, leading, load, extract, encode, read_text, decode}
use poseidon.Base58.Value.{numeral, value, AllBelow, AllBytes, Trimmed}
use poseidon.Base58.Digits.{IsBig, extract_lem, load_lem, horner-reverse, numeral-lt}
use poseidon.Base58.Leading.{
  leading_split, leading-replicate, drop-replicate, AllBelow-reverse, leading-reverse, length_of_lt,
  numeral_inj, power_room,
}
use poseidon.Base58.Text.{
  spell, read_text-spell, leading-spell, decode_long, body, body-IsBig, load-body,
}

-- The digits that encode writes.
encode_digits :
    (input : List ℕ)
    → AllBytes input
    → length input ≤ 100
    → (digits : List ℕ) × (extract 200 58 (load 256 input []) ≡ some digits)
      × (numeral 58 digits ≡ value (reverse (body input)))
      × AllBelow 58 digits
      × Trimmed 58 digits
      × (length digits ≤ length (body input) + length (body input))
unfolding body
encode_digits input h l =
    let k : ℕ = length (body input) in
    let (loaded, big) = load-body input h in
    let less : value (reverse (body input)) < 256 ^ k =
      rw (sym (length-reverse (body input))) (
        numeral-lt 256 (omega arith) (omega arith) (reverse (body input)) (body-IsBig input h).0) in
    let short : k ≤ 100 = omega (arith, length-drop (leading 0 input) input) in
    let room : 58 ^ (k + k) ≤ 58 ^ 200 =
      pow-le-pow_right (omega arith) {j = 200} (omega (arith, short)) in
    let (digits, done, known, below, top, _) =
      extract_lem 58 (omega arith) (omega arith) 200 (load 256 input []) big
        (omega (arith, loaded, less, power_room k, room)) in
    (
      digits,
      done,
      known ∙ loaded,
      below,
      top,
      length_of_lt 58 (omega arith) (k + k) digits top
          (omega (arith, known, loaded, less, power_room k)),
    )

-- The bytes that decode reads from digits of the same number.
decode_digits :
    (digits xs : List ℕ)
    → AllBelow 58 digits
    → IsBig (reverse xs)
    → numeral 58 digits ≡ value (reverse xs)
    → length xs ≤ 100
    → (bigint : List ℕ) × (read_text (spell (reverse digits)) [] ≡ some bigint)
      × (extract 200 256 bigint ≡ some (reverse xs))
decode_digits digits xs h k e l =
    let below : AllBelow 58 (reverse digits) = AllBelow-reverse 58 digits h in
    let (loaded, big) =
      load_lem 58 (omega arith) (omega arith) (reverse digits) [] below (refl, refl) in
    let known : value (load 58 (reverse digits) []) ≡ value (reverse xs) =
      loaded ∙ horner-reverse 58 (omega arith) (omega arith) digits ∙ e in
    let less : value (reverse xs) < 256 ^ length (reverse xs) =
      numeral-lt 256 (omega arith) (omega arith) (reverse xs) k.0 in
    let room : 256 ^ length (reverse xs) ≤ 256 ^ 200 =
      pow-le-pow_right (omega arith) {j = 200} (omega (arith, length-reverse xs)) in
    let (bytes, done, same, bounded, top, _) =
      extract_lem 256 (omega arith) (omega arith) 200 (load 58 (reverse digits) []) big
        (omega (arith, known, less, room)) in
    (
      load 58 (reverse digits) [],
      read_text-spell (reverse digits) [] below,
      done
          ∙ ap {B = Option (List ℕ)} some
              (numeral_inj bytes (reverse xs) (bounded, top) k (same ∙ known)),
    )

-- A text: a character `1` for each zero at the front, then the digits.
module _ (zeros : ℕ) (digits : List ℕ) (below : AllBelow 58 digits) where
  text_of : List ℕ
  text_of = replicate zeros 49 ++ spell (reverse digits)

  leading-text : Trimmed 58 digits → leading 49 text_of ≡ zeros
  unfolding text_of
  leading-text top =
      leading-replicate zeros 49 (spell (reverse digits))
      ∙ omega (
        arith,
        leading-spell (reverse digits) (AllBelow-reverse 58 digits below),
        leading-reverse 58 (omega arith) digits top,
      )

  length-text : length text_of ≡ zeros + length digits
  unfolding text_of spell
  length-text = omega (
    arith,
    length-append (replicate zeros 49) (spell (reverse digits)),
    length-replicate {A = ℕ} zeros 49,
    length-map (λ d. get_or alphabet d 0) (reverse digits),
    length-reverse digits,
  )

  drop-text : drop zeros text_of ≡ spell (reverse digits)
  unfolding text_of
  drop-text = drop-replicate zeros 49 (spell (reverse digits))

  decode-text :
      (xs : List ℕ) (room : ℕ)
      → Trimmed 58 digits
      → IsBig (reverse xs)
      → numeral 58 digits ≡ value (reverse xs)
      → length xs ≤ 100
      → zeros + length digits ≤ 200
      → zeros + length xs ≤ room
      → decode text_of room ≡ some (replicate zeros 0 ++ xs)
  decode-text xs room top big e short fits enough =
      let (bigint, read, done) = decode_digits digits xs below big e short in
      let writes : ltb room (zeros + length (reverse xs)) ≡ false =
        ground (arith, length-reverse xs) in
      decode_long text_of room (omega (arith, length-text))
      ∙ rw (leading-text top, drop-text, read, done, writes, reverse-reverse xs) refl

length-body : (input : List ℕ) → leading 0 input + length (body input) ≡ length input
unfolding body
length-body input = omega (
  arith,
  length-append (replicate (leading 0 input) 0) (body input),
  length-replicate {A = ℕ} (leading 0 input) 0,
  ap length (leading_split 0 input),
)

-- Encoding at most 100 bytes succeeds where the output has room for one character and for two for
-- each byte, and decoding the text into as many bytes gives the input back, its zeros at the front
-- included.
pub decode-encode :
    (input : List ℕ) (output_size room : ℕ)
    → AllBytes input
    → length input ≤ 100
    → 0 < output_size
    → length input + length input ≤ output_size
    → length input ≤ room
    → (text : List ℕ) × (encode input output_size ≡ some text) × (decode text room ≡ some input)
unfolding encode decode body text_of spell
decode-encode [] output_size room h l p q r = ([], ground arith, refl)
decode-encode (b ∷ rest) output_size room h l p q r =
    let input : List ℕ = b ∷ rest in
    let (digits, done, known, below, top, few) = encode_digits input h l in
    let z : ℕ = leading 0 input in
    let parts : z + length (body input) ≡ length input = length-body input in
    let present : (length input == 0) ≡ false = ground arith in
    let small : ltb (200 / 2) (length input) ≡ false = ground arith in
    let fits : ltb output_size (z + length digits) ≡ false = ground (arith, parts, few) in
    (
      text_of z digits below,
      rw (present, small, done, fits) refl,
      decode-text z digits below (body input) room top (body-IsBig input h) known
            (omega (arith, parts)) (omega (arith, parts, few)) (omega (arith, parts))
          ∙ ap {B = Option (List ℕ)} some (leading_split 0 input),
    )
