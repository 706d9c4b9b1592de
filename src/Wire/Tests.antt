-- ===== src/Wire/Tests.antt =====
-- A message with one publisher and a filter of nine bits.
use poseidon.Prelude.{ℕ, ◌≡◌, refl, true, List, [], ◌∷◌, ◌++◌, arith}
use poseidon.Prelude.Outcome.{refused, done, is_safe}
use poseidon.Wire.{RouteMessage, serialize, deserialize}
use poseidon.Wire.Reading.{Fits, received}
use poseidon.Wire.Codec.{deserialize-encoded}
use poseidon.Wire.Safety.{deserialize_safe}

abbrev small : RouteMessage
small = record {
  id = record { time = 1700000000; nanos = 5; count = 3 };
  topic = 116 ∷ 111 ∷ [];
  payload = 1 ∷ 2 ∷ 3 ∷ [];
  visited = record {
    bits = record { bytes = 130 ∷ 1 ∷ [] };
    size = 9;
    hash_count = 3;
    seed_a = 1;
    seed_b = 2;
    count = 1;
  };
  hops_remaining = 4;
  publishers = record { addr = 16777343; port = 36895 } ∷ [];
}

small-Fits : Fits small
small-Fits = record {
  time_fits = omega arith;
  nanos_fits = omega arith;
  count_fits = omega arith;
  topic_fits = omega arith;
  payload_fits = omega arith;
  hops_fit = omega arith;
  publishers_fit = omega arith;
  peers_fit = (omega arith, omega arith, refl);
  size_fits = omega arith;
  hashes_fit = omega arith;
  whole = refl;
  first_seed = refl;
  second_seed = refl;
}

deserialize-encoded_example :
    (bytes : List ℕ) × (serialize small ≡ done bytes)
    × ((rest : List ℕ) → deserialize (bytes ++ rest) ≡ done (received small))
deserialize-encoded_example = deserialize-encoded small small-Fits

deserialize_safe_example : is_safe (deserialize (81 ∷ 82 ∷ 79 ∷ 84 ∷ [])) ≡ true
deserialize_safe_example =
    deserialize_safe (81 ∷ 82 ∷ 79 ∷ 84 ∷ [])
      (omega arith, (omega arith, (omega arith, (omega arith, refl))))

short_test : deserialize (81 ∷ 82 ∷ 79 ∷ 84 ∷ []) ≡ refused
unfolding deserialize
short_test = refl
