-- ===== src/Base58/Text.antt =====
-- The alphabet, the text of digits, and the leading zeros.
use poseidon.Prelude.{
  ℕ, suc, ◌+◌, ◌≤◌, ◌<◌, ◌≡◌, refl, sym, ap, ◌∙◌, true, false, not, ◌&&◌, none, some, List, [], ◌∷◌,
  ◌++◌, map, arith, ltb, leb, ◌==◌, if◌then◌else◌, ◌>>=◌, length, get_or, drop, reverse, replicate,
  reverse-reverse,
}
use poseidon.Prelude.Bits.{passes_under, passes_at}
use poseidon.Base58.{alphabet, base58_map, leading, load, extract, read_text, decode}
use poseidon.Base58.Value.{value, AllBelow, AllBytes, horner}
use poseidon.Base58.Digits.{IsBig, load_lem, horner-reverse}
use poseidon.Base58.Leading.{
  leading_split, leading-drop, AllBelow-reverse, AllBelow-drop, horner-zeros, reverse-Trimmed,
}

alphabet_table :
    passes_under
      (λ d.
        get_or base58_map (get_or alphabet d 0) 255 == d
        && (if d == 0 then get_or alphabet d 0 == 49 else not (get_or alphabet d 0 == 49)))
      58
    ≡ true
unfolding passes_under
alphabet_table = refl

digit_lem :
    (d : ℕ)
    → d < 58
    → (get_or base58_map (get_or alphabet d 0) 255 ≡ d) × ((get_or alphabet d 0 == 49) ≡ (d == 0))
digit_lem d h =
    let fact : (get_or base58_map (get_or alphabet d 0) 255 == d
          && (if d == 0 then get_or alphabet d 0 == 49 else not (get_or alphabet d 0 == 49)))
        ≡ true =
      passes_at _ 58 alphabet_table d h in
    (ground (arith, fact), ground (arith, fact))

-- The text of a list of digits.
unfoldable pub spell : List ℕ → List ℕ
spell digits = map (λ d. get_or alphabet d 0) digits

pub read_text-spell :
    (digits bigint : List ℕ)
    → AllBelow 58 digits
    → read_text (spell digits) bigint ≡ some (load 58 digits bigint)
unfolding read_text load spell
read_text-spell [] bigint h = refl
read_text-spell (d ∷ digits) bigint (h, hs) =
    let known : get_or base58_map (get_or alphabet d 0) 255 ≡ d = (digit_lem d h).0 in
    let low : leb 128 d ≡ false = ground arith in rw (known, low) (read_text-spell digits _ hs)

pub leading-spell :
    (digits : List ℕ) → AllBelow 58 digits → leading 49 (spell digits) ≡ leading 0 digits
unfolding leading spell
leading-spell [] h = refl
leading-spell (d ∷ digits) (h, hs) =
    rw (digit_lem d h).1 (ap (λ (n : ℕ). if d == 0 then suc n else 0) (leading-spell digits hs))

-- The check for an empty text only avoids the work.
pub decode_long :
    (input : List ℕ) (room : ℕ)
    → length input ≤ 200
    → decode input room ≡ (
        read_text (drop (leading 49 input) input) [] >>= λ bigint.
        extract 200 256 bigint >>= λ bytes.
        if ltb room (leading 49 input + length bytes)
        then none
        else some (replicate (leading 49 input) 0 ++ reverse bytes))
unfolding decode leading read_text extract
decode_long [] room h = ground arith
decode_long (c ∷ input) room h =
    let present : (length (c ∷ input) == 0) ≡ false = ground arith in
    let short : ltb 200 (length (c ∷ input)) ≡ false = ground arith in rw (present, short) refl

-- The bytes after the zeros at the front.
unfoldable pub body : List ℕ → List ℕ
body input = drop (leading 0 input) input

pub body-IsBig : (input : List ℕ) → AllBytes input → IsBig (reverse (body input))
unfolding body
body-IsBig input h = (
  AllBelow-reverse 256 (body input) (AllBelow-drop 256 (leading 0 input) input h),
  reverse-Trimmed 256 (omega arith) (body input) (leading-drop 0 input),
)

pub load-body :
    (input : List ℕ)
    → AllBytes input
    → (value (load 256 input []) ≡ value (reverse (body input))) × IsBig (load 256 input [])
unfolding body
load-body input h =
    let (loaded, big) = load_lem 256 (omega arith) (omega arith) input [] h (refl, refl) in
    (
      loaded
          ∙ ap (λ (xs : List ℕ). horner 256 0 xs) (sym (leading_split 0 input))
          ∙ horner-zeros 256 (leading 0 input) (body input)
          ∙ ap (λ (xs : List ℕ). horner 256 0 xs) (sym (reverse-reverse (body input)))
          ∙ horner-reverse 256 (omega arith) (omega arith) (reverse (body input)),
      big,
    )
