-- ===== src/Packet/Arrays.antt =====
-- Arrays of packets: what the encoders make, and what the decoders read first.
use poseidon.Prelude.{
  ℕ, zero, suc, ◌+◌, ◌*◌, ◌/◌, ◌%◌, ◌^◌, ◌≤◌, ◌<◌, ◌≡◌, refl, sym, ◌∙◌, none, some, List, [], ◌∷◌,
  ◌++◌, arith, ltb, ltb→lt, Bool-cases, inl, inr, length, append_assoc, append-nil, length-append,
}
use poseidon.Prelude.Bits.{bit_or-shifted}
use poseidon.Prelude.Outcome.{done}
use poseidon.Cbor.{Cbor, Width, bits, bits8, bits16, bits32, bits64}
use poseidon.Cbor.Laws.{CborLaws, IsArray, new_array-IsArray, push-IsArray, push_all-IsArray}
use poseidon.Packet.{Packet, join_id, array_of, base_items, decode_base, push_arrays}

pub join_id_lem : (id : ℕ) → id < 2 ^ 64 → join_id (id / 2 ^ 32) (id % 2 ^ 32) ≡ id
unfolding join_id
join_id_lem id h =
    let small : id / 2 ^ 32 * 2 ^ 32 % 2 ^ 64 ≡ id / 2 ^ 32 * 2 ^ 32 = omega arith in
    rw small (bit_or-shifted 32 (id / 2 ^ 32) (id % 2 ^ 32) (omega arith) ∙ omega arith)

-- The fields fit their types.
pub record FitsPacket (pkt : Packet) : Type 0 where
  pub type_fits : pkt.packet_type < 2 ^ 8
  pub id_fits : pkt.query_id < 2 ^ 64
  pub magic_fits : pkt.magic < 2 ^ 32
  pub addr_fits : pkt.rendv_addr < 2 ^ 32
  pub port_fits : pkt.rendv_port < 2 ^ 16

module _ (api : Cbor) (laws : CborLaws api) where
  open api use {Item, build_uint, get_uint, new_array}

  pub array_of_lem :
      (a : Item) (n k : ℕ) (xs : List Item)
      → IsArray api laws a n xs
      → k ≤ length xs
      → array_of api a k ≡ done xs
  array_of_lem a n k xs h enough =
      rw (h.definite, (laws.size_lem a xs h.holds).0, h.holds) (ground arith)

  pub get_lem : (w : Width) (v : ℕ) → v < 2 ^ bits w → get_uint w (build_uint w v) ≡ done v
  get_lem w v h = (laws.uint_lem w v h).0

  pub decode_base_lem :
      (pkt : Packet) (rest : List Item)
      → FitsPacket pkt
      → decode_base api (base_items api pkt ++ rest) ≡ done pkt
  decode_base_lem pkt rest h =
      rw
        (
          get_lem bits8 pkt.packet_type h.type_fits,
          get_lem bits64 (pkt.query_id / 2 ^ 32) (omega (arith, h.id_fits)),
          get_lem bits64 (pkt.query_id % 2 ^ 32) (omega arith),
          get_lem bits32 pkt.magic h.magic_fits,
          get_lem bits32 pkt.rendv_addr h.addr_fits,
          get_lem bits16 pkt.rendv_port h.port_fits,
          join_id_lem pkt.query_id h.id_fits,
        )
        refl

  -- Each item is an array of the cells.
  abbrev pub AreArrays : List Item → List (List Item) → Type 0
  AreArrays [] [] = zero ≡ zero
  AreArrays (x ∷ xs) (cells ∷ rest) = IsArray api laws x (length cells) cells × AreArrays xs rest
  AreArrays _ _ = zero ≡ suc zero

  pub push_arrays-IsArray :
      (a : Item) (n : ℕ) (xs : List Item) (nodes : List (List Item))
      → IsArray api laws a n xs
      → length xs + length nodes ≤ n
      → (b : Item) × (ys : List Item) × (push_arrays api a nodes ≡ some b)
        × IsArray api laws b n (xs ++ ys)
        × AreArrays ys nodes
  unfolding push_arrays
  push_arrays-IsArray a n xs [] h fits = (a, [], refl, rw (append-nil xs) h, refl)
  push_arrays-IsArray a n xs (cells ∷ nodes) h fits =
      let (node, made, is_node) =
        push_all-IsArray api laws (new_array (length cells)) (length cells) [] cells
          (new_array-IsArray api laws (length cells)) (omega arith) in
      let (more, pushed, next) = push-IsArray api laws a node n xs h (omega arith) in
      let (b, ys, rest, last, arrays) =
        push_arrays-IsArray more n (xs ++ node ∷ []) nodes next
          (omega (arith, length-append xs (node ∷ []))) in
      (
        b,
        node ∷ ys,
        rw (made, pushed) rest,
        rw (sym (append_assoc xs (node ∷ []) ys)) last,
        (is_node, arrays),
      )

  -- Without room for all the nodes some push fails.
  pub push_arrays_full :
      (a : Item) (n : ℕ) (xs : List Item) (nodes : List (List Item))
      → IsArray api laws a n xs
      → length xs ≤ n
      → n < length xs + length nodes
      → push_arrays api a nodes ≡ none
  unfolding push_arrays
  push_arrays_full a n xs [] h small full = absurd (omega arith)
  push_arrays_full a n xs (cells ∷ nodes) h small full =
      let (node, made, is_node) =
        push_all-IsArray api laws (new_array (length cells)) (length cells) [] cells
          (new_array-IsArray api laws (length cells)) (omega arith) in
      elim (Bool-cases (ltb (length xs) n)) [
        | inl room ↦
            let (more, pushed, next) =
              push-IsArray api laws a node n xs h (ltb→lt (length xs) n room) in
            rw (made, pushed)
              (push_arrays_full more n (xs ++ node ∷ []) nodes next
                (ground (arith, room, length-append xs (node ∷ [])))
                (omega (arith, length-append xs (node ∷ []))))
        | inr none_left ↦
            rw
              (
                made,
                laws.push_full a node xs h.definite h.holds (ground (arith, none_left, h.room)),
              )
              refl
      ]
