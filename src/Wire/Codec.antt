-- ===== src/Wire/Codec.antt =====
-- A message is read back from the bytes it is written to.
use poseidon.Prelude.{
  ℕ, ◌+◌, ◌*◌, ◌^◌, ◌≤◌, ◌<◌, ◌≡◌, refl, sym, ap, ◌∙◌, List, [], ◌∷◌, ◌++◌, arith, length, take,
  append_assoc,
}
use poseidon.Prelude.Outcome.{done, read_bytes-fits}
use poseidon.Bloom.{byte_size}
use poseidon.Ids
use poseidon.Ids.{MessageId}
use poseidon.Wire.{
  RouteMessage, header, write_words, write_addrs, write_ports, body_size, serialize, deserialize,
}
use poseidon.Wire.Safety.{byte_size_lem}
use poseidon.Wire.Parts.{join}
use poseidon.Wire.Reading.{Fits, received, parts_of, deserialize-parts}

abbrev encoded : RouteMessage → List ℕ
encoded msg =
    write_words (header msg)
    ++ (Ids.serialize msg.id
        ++ (msg.topic
            ++ (msg.payload
                ++ (write_addrs msg.publishers
                    ++ (write_ports msg.publishers ++ msg.visited.bits.bytes)))))

encoded-append :
    (msg : RouteMessage) (rest : List ℕ) → encoded msg ++ rest ≡ join (parts_of msg) rest
encoded-append msg rest = simp (append_assoc)

body_size_lem :
    (t d n v : ℕ)
    → t ≤ 1400
    → d ≤ 1400
    → n ≤ 256
    → v < 2 ^ 32
    → body_size t d n v ≡ done (t + d + 6 * n + v + 24)
unfolding body_size
body_size_lem t d n v ht hd hn hv = ground arith

take_all : (xs : List ℕ) → take (length xs) xs ≡ xs
take_all [] = refl
take_all (x ∷ xs) = ap {B = List ℕ} (◌∷◌ x) (take_all xs)

serialize-encoded : (msg : RouteMessage) → Fits msg → serialize msg ≡ done (encoded msg)
unfolding serialize
serialize-encoded msg fits =
    rw
      (body_size_lem (length msg.topic) (length msg.payload) (length msg.publishers)
        (byte_size msg.visited.size) fits.topic_fits fits.payload_fits fits.publishers_fit
        (byte_size_lem msg.visited.size fits.size_fits))
      (rw
        (
          sym fits.whole,
          read_bytes-fits msg.visited.bits.bytes 0 (length msg.visited.bits.bytes) (omega arith),
          take_all msg.visited.bits.bytes,
        )
        refl)

-- A message within the limits of the decoder, with a whole filter that has the seeds of a new one,
-- is written, and read back from its bytes, whatever follows them; only the count of the filter of
-- visited nodes is lost, and is 0.
pub deserialize-encoded :
    (msg : RouteMessage)
    → Fits msg
    → (bytes : List ℕ) × (serialize msg ≡ done bytes)
      × ((rest : List ℕ) → deserialize (bytes ++ rest) ≡ done (received msg))
deserialize-encoded msg fits = (
  encoded msg,
  serialize-encoded msg fits,
  λ rest. ap deserialize (encoded-append msg rest) ∙ deserialize-parts msg rest fits,
)
