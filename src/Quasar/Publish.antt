-- ===== src/Quasar/Publish.antt =====
-- quasar_publish of src/Network/Quasar/quasar.c, and quasar_route_message_create of quasar_route.c.
-- The identifiers that the creations of messages draw are an argument: `ids i` is the memory of the
-- identifier of the message that is made as number `i`.
pub mod Echo
use poseidon.Prelude.{
  ℕ, zero, suc, ◌+◌, ◌-◌, ◌*◌, ◌/◌, ◌%◌, ◌^◌, ◌≤◌, ◌<◌, ◌≡◌, refl, sym, ap, ◌∙◌, ◌↔◌, ◌⊎◌, inl, inr,
  Bool, true, false, not, ◌&&◌, ◌||◌, Option, none, some, List, [], ◌∷◌, ◌++◌, map, arith, ltb, leb,
  ◌==◌, if◌then◌else◌, ltb→lt, lt→ltb, leb→le, ==_iff, Bool-cases, Option-cases, List-cases,
  if_intro, eq_of_implications, same_bytes, same_bytes_iff, same_bytes_refl, ◌>>=◌, length, get_or,
  get_elem?, set, take, drop, reverse, replicate, length-append, length-replicate, length-set,
  length-take, length-drop, length-map, length-reverse, append_assoc, append-nil, reverse-append,
  reverse-reverse, get_or-append, get_or-set, get_or-take, get_or_ext, tests,
}
use poseidon.Bloom
use poseidon.Elastic
use poseidon.Elastic.{Floats, Filter}
use poseidon.Attenuated
use poseidon.Quasar.{
  Peer, Network, Message, Effect, node_key, locally_subscribed, Quasar, Neighbor, first_lead,
  add_visited, add_publisher, random_walk, peers_of, local_of,
}

-- QUASAR_DEFAULT_NEGATIVE_SIZE and QUASAR_DEFAULT_NEGATIVE_HASHES
abbrev pub negative_size : ℕ
negative_size = 2048

abbrev pub negative_hashes : ℕ
negative_hashes = 3

-- quasar_route_message_create
unfoldable pub create_message : List ℕ → List ℕ → List ℕ → ℕ → Message
create_message id topic payload hops = record {
  id = id;
  topic = topic;
  payload = payload;
  visited = Bloom.create negative_size negative_hashes;
  hops_remaining = hops;
  publishers = [];
}

module _ (floats : Floats) (xxh3 : List ℕ → ℕ → ℕ) where
  open floats use {Float}

  -- A message of this node: it is a publisher, and visited.
  abbrev pub own_message : Peer → List ℕ → List ℕ → List ℕ → ℕ → Message
  own_message local id topic payload hops =
      add_visited floats xxh3 (add_publisher (create_message id topic payload hops) local) local

  abbrev pub see : Quasar floats → List ℕ → Quasar floats
  see q id = record q { seen = Bloom.add xxh3 q.seen id }

  -- The loop over the connected peers, from the peer number `i` on: a message of its own for each.
  unfoldable pub republish :
      (ℕ → List ℕ)
      → Peer
      → List ℕ
      → List ℕ
      → Quasar floats
      → ℕ
      → List Peer
      → Quasar floats × List Effect
  republish ids local topic payload q i [] = (q, [])
  republish ids local topic payload q i (p ∷ peers) =
      let (q', sent) = republish ids local topic payload (see q (ids i)) (suc i) peers in
      (q', Effect.send (own_message local (ids i) topic payload q.max_hops) p ∷ sent)

  -- A neighbor that the directed walk takes at a level: the local key is the only negative information,
  -- and only where the node has an address or a port.
  abbrev pub leads_from : Peer → List ℕ → ℕ → Neighbor floats → Bool
  leads_from local topic level n = elim (Attenuated.get_level floats n.filter level) [
    | none ↦ false
    | some e ↦
        if Elastic.contains floats xxh3 e topic
        then (if local.addr == 0 && local.port == 0
            then true
            else not (Elastic.contains floats xxh3 e (node_key local)))
        else false
  ]

  -- The directed walk, with `n` levels left from `level` on.
  unfoldable pub walk_levels :
      Peer → List ℕ → List (Neighbor floats) → ℕ → ℕ → Option (Neighbor floats)
  walk_levels local topic neighbors zero level = none
  walk_levels local topic neighbors (suc n) level =
      let rest = walk_levels local topic neighbors n (level + 1) in
      elim (first_lead floats xxh3 (leads_from local topic level) neighbors) [
        | some target ↦ some target
        | none ↦ rest
      ]

  -- The random walk of a new message; without a network nothing is sent.
  unfoldable pub publish_randomly :
      Option Network → Quasar floats → List ℕ → List ℕ → List ℕ → Quasar floats × List Effect
  publish_randomly none q id topic payload = (see q id, [])
  publish_randomly (some network) q id topic payload = (
    see q id,
    random_walk floats xxh3 q.alpha
        (add_publisher
          (add_visited floats xxh3 (create_message id topic payload q.max_hops) network.local_node)
          network.local_node)
        network.peers 0,
  )

  -- The directed walk of a new message, where there is a network.
  abbrev pub directed_target : Option Network → Quasar floats → List ℕ → Option (Neighbor floats)
  directed_target none q topic = none
  directed_target (some network) q topic =
      walk_levels network.local_node topic q.neighbor_filters (length q.routing.levels) 0

  -- The two walks of a new message.
  unfoldable pub publish_along :
      Option (Neighbor floats)
      → Option Network
      → Quasar floats
      → List ℕ
      → List ℕ
      → List ℕ
      → Quasar floats × List Effect
  publish_along none network q id topic payload = publish_randomly network q id topic payload
  publish_along (some target) network q id topic payload = (
    see q id,
    Effect.send (own_message (local_of floats xxh3 network) id topic payload q.max_hops) target.peer
        ∷ [],
  )

  -- quasar_publish
  unfoldable pub publish :
      Option Network → (ℕ → List ℕ) → Quasar floats → List ℕ → List ℕ → Quasar floats × List Effect
  publish network ids q topic payload =
      let (q', sent) =
        republish ids (local_of floats xxh3 network) topic payload q 0
          (peers_of floats xxh3 network) in
      if locally_subscribed q.local_subs topic
      then (q', (if q.listens then Effect.deliver topic payload ∷ [] else []) ++ sent)
      else publish_along (directed_target network q topic) network q (ids 0) topic payload
