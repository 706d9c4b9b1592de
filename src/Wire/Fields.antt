-- ===== src/Wire/Fields.antt =====
-- The words of a header and the arrays of publishers, read from bytes.
use poseidon.Prelude.{
  ℕ, zero, suc, ◌+◌, ◌*◌, ◌/◌, ◌%◌, ◌^◌, ◌≤◌, ◌<◌, ◌≡◌, refl, ap, List, [], ◌∷◌, ◌++◌, arith,
  length, get_or, take, drop, AllBelow, AllBytes, append_assoc,
}
use poseidon.Prelude.Outcome.{
  Outcome, done, ◌>>=◌, read_bytes-fits, read_bytes-here, read_bytes-skip,
}
use poseidon.Ids.{write_uint32, read_uint32}
use poseidon.Quasar.{Peer}
use poseidon.Wire.{word, write_words, write_addrs, write_ports, read_publishers}

pub word-fits :
    (bytes : List ℕ) (i : ℕ)
    → 4 * i + 4 ≤ length bytes
    → word bytes i ≡ done (read_uint32 (take 4 (drop (4 * i) bytes)) 0)
unfolding word
word-fits bytes i h =
    ap {B = Outcome ℕ} (λ o. o >>= λ w. done (read_uint32 w 0)) (read_bytes-fits bytes (4 * i) 4 h)

AllBytes-drop : (n : ℕ) (bytes : List ℕ) → AllBytes bytes → AllBytes (drop n bytes)
AllBytes-drop zero bytes h = h
AllBytes-drop (suc n) [] h = refl
AllBytes-drop (suc n) (b ∷ bytes) (h, hs) = AllBytes-drop n bytes hs

AllBytes-take : (n : ℕ) (bytes : List ℕ) → AllBytes bytes → AllBytes (take n bytes)
AllBytes-take zero bytes h = refl
AllBytes-take (suc n) [] h = refl
AllBytes-take (suc n) (b ∷ bytes) (h, hs) = (h, AllBytes-take n bytes hs)

byte_lt : (bytes : List ℕ) (i : ℕ) → AllBytes bytes → get_or bytes i 0 < 256
byte_lt [] i h = omega arith
byte_lt (b ∷ bytes) zero (h, hs) = h
byte_lt (b ∷ bytes) (suc i) (h, hs) = byte_lt bytes i hs

-- A word of bytes is below 2 ^ 32.
pub word_lt :
    (bytes : List ℕ) (i : ℕ) → AllBytes bytes → read_uint32 (take 4 (drop (4 * i) bytes)) 0 < 2 ^ 32
word_lt bytes i h =
    let bound : AllBytes (take 4 (drop (4 * i) bytes)) =
      AllBytes-take 4 _ (AllBytes-drop (4 * i) bytes h) in
    omega (arith, byte_lt _ 0 bound, byte_lt _ 1 bound, byte_lt _ 2 bound, byte_lt _ 3 bound)

uint32_lem : (w : ℕ) → w < 2 ^ 32 → read_uint32 (write_uint32 w) 0 ≡ w
uint32_lem w h = omega arith

-- The words are read in their order.
pub word-write_words :
    (ws rest : List ℕ) (i : ℕ)
    → AllBelow (2 ^ 32) ws
    → i < length ws
    → word (write_words ws ++ rest) i ≡ done (get_or ws i 0)
unfolding write_words word
word-write_words [] rest i h k = absurd (omega arith)
word-write_words (w ∷ ws) rest zero (h, hs) k =
    rw
      (
        append_assoc (write_uint32 w) (write_words ws) rest,
        read_bytes-here (write_uint32 w) (write_words ws ++ rest),
      )
      (ap done (uint32_lem w h))
word-write_words (w ∷ ws) rest (suc i) (h, hs) k =
    let at : 4 * suc i ≡ 4 + 4 * i = omega arith in
    rw
      (
        append_assoc (write_uint32 w) (write_words ws) rest,
        at,
        read_bytes-skip (write_uint32 w) (write_words ws ++ rest) (4 * i) 4,
      )
      (word-write_words ws rest i hs (omega arith))

pub length-write_words : (ws : List ℕ) → length (write_words ws) ≡ 4 * length ws
unfolding write_words
length-write_words [] = refl
length-write_words (w ∷ ws) = omega (arith, length-write_words ws)

pub length-write_addrs : (ps : List Peer) → length (write_addrs ps) ≡ length ps * 4
unfolding write_addrs
length-write_addrs [] = refl
length-write_addrs (p ∷ ps) = omega (arith, length-write_addrs ps)

pub length-write_ports : (ps : List Peer) → length (write_ports ps) ≡ length ps * 2
unfolding write_ports
length-write_ports [] = refl
length-write_ports (p ∷ ps) = omega (arith, length-write_ports ps)

-- The addresses and ports fit 32 and 16 bits.
abbrev pub AllPeers : List Peer → Type 0
AllPeers [] = zero ≡ zero
AllPeers (p ∷ ps) = (p.addr < 2 ^ 32) × (p.port < 2 ^ 16) × AllPeers ps

addr_lem :
    (v : ℕ)
    → v < 2 ^ 32
    → v % 256 + v / 256 % 256 * 256 + v / 65536 % 256 * 65536 + v / 16777216 % 256 * 16777216 ≡ v
addr_lem v h = omega arith

port_lem : (v : ℕ) → v < 2 ^ 16 → v % 256 + v / 256 % 256 * 256 ≡ v
port_lem v h = omega arith

pub read_publishers-write :
    (ps : List Peer)
    → AllPeers ps
    → read_publishers (length ps) (write_addrs ps) (write_ports ps) ≡ ps
unfolding read_publishers write_addrs write_ports
read_publishers-write [] h = refl
read_publishers-write (p ∷ ps) (addr_fits, port_fits, rest) =
    ground
      (arith, addr_lem p.addr addr_fits, port_lem p.port port_fits, read_publishers-write ps rest)
