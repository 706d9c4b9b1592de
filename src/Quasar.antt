-- ===== src/Quasar.antt =====
-- src/Network/Quasar/quasar.c: the publish-subscribe overlay. A message is routed by directed walks
-- along the neighbors' filters, and by random walks where no filter knows the topic.
pub mod Routing
pub mod Subscriptions
pub mod Publish
mod Tests
use poseidon.Prelude.{
  ℕ, zero, suc, ◌+◌, ◌-◌, ◌/◌, ◌%◌, ◌^◌, List, [], ◌∷◌, ◌++◌, map, Bool, true, false, ◌&&◌, ◌||◌,
  not, Option, none, some, ltb, leb, ◌==◌, if◌then◌else◌, length, get_or, same_bytes, ◌>>=◌,
}
use poseidon.Prelude.Entries.{find}
use poseidon.Bloom
use poseidon.Elastic
use poseidon.Elastic.{Floats, Filter}
use poseidon.Attenuated
use poseidon.Attenuated.{Attenuated}

-- An address and a port, all that the overlay reads of a `meridian_node_t`.
pub record Peer : Type 0 where
  pub addr : ℕ
  pub port : ℕ

abbrev pub same_peer : Peer → Peer → Bool
same_peer a b = a.addr == b.addr && a.port == b.port

-- What the Meridian protocol answers: the local node, and the connected peers.
pub record Network : Type 0 where
  pub local_node : Peer
  pub peers : List Peer

-- `node_key`: the bytes of the address and of the port, as a little-endian machine stores them.
unfoldable pub node_key : Peer → List ℕ
node_key p =
    p.addr % 256
    ∷ p.addr / 256 % 256
    ∷ p.addr / 65536 % 256
    ∷ p.addr / 16777216 % 256
    ∷ p.port % 256
    ∷ p.port / 256 % 256
    ∷ []

-- `quasar_route_message_t`: `id` is the memory of its identifier, `publishers` the two arrays.
pub record Message : Type 0 where
  pub id : List ℕ
  pub topic : List ℕ
  pub payload : List ℕ
  pub visited : Bloom.Filter
  pub hops_remaining : ℕ
  pub publishers : List Peer

-- `quasar_subscription_t`
pub record Subscription : Type 0 where
  pub topic : List ℕ
  pub ttl : ℕ

-- What a handler does outside the overlay's state: a call of `on_message`, or a packet to a peer.
pub data Effect : Type 0 where
  deliver : List ℕ → List ℕ → Effect
  send : Message → Peer → Effect

-- quasar_route_message_add_publisher and quasar_route_message_has_publisher
unfoldable pub add_publisher : Message → Peer → Message
add_publisher msg p = record msg { publishers = msg.publishers ++ p ∷ [] }

unfoldable pub has_publisher : Message → Peer → Bool
has_publisher msg p = elim (find (λ q. same_peer q p) msg.publishers) [
  | some i ↦ true
  | none ↦ false
]

-- `memcmp` of the topics, with equal sizes.
abbrev pub is_topic : List ℕ → Subscription → Bool
is_topic topic s = same_bytes s.topic topic

abbrev pub locally_subscribed : List Subscription → List ℕ → Bool
locally_subscribed subs topic = elim (find (is_topic topic) subs) [ some i ↦ true | none ↦ false ]

-- The list without its first subscription to a topic, of quasar_unsubscribe.
abbrev pub drop_first : List ℕ → List Subscription → List Subscription
drop_first topic [] = []
drop_first topic (s ∷ subs) = elim (is_topic topic s) [
  | true ↦ subs
  | false ↦ let rest = drop_first topic subs in s ∷ rest
]

module _ (floats : Floats) where
  open floats use {Float}

  -- `quasar_neighbor_filter_t`
  pub record Neighbor : Type 0 where
    pub peer : Peer
    pub filter : Attenuated Float

  -- `quasar_t`, less the protocol, which is an argument; `listens` is `on_message != NULL`.
  pub record Quasar : Type 0 where
    pub routing : Attenuated Float
    pub neighbor_filters : List Neighbor
    pub local_subs : List Subscription
    pub max_hops : ℕ
    pub alpha : ℕ
    pub seen : Bloom.Filter
    pub listens : Bool

  abbrev pub is_from : Peer → Neighbor → Bool
  is_from p n = same_peer n.peer p

  -- quasar_create, for the constants 1024, 3, 0.75 and EBF_DEFAULT_FP_BITS as arguments.
  unfoldable pub create : ℕ → ℕ → Float → ℕ → ℕ → ℕ → ℕ → ℕ → Quasar
  create size hash_count threshold fp_bits max_hops alpha seen_size seen_hashes = record {
    routing = Attenuated.create floats max_hops size hash_count threshold fp_bits;
    neighbor_filters = [];
    local_subs = [];
    max_hops = max_hops;
    alpha = alpha;
    seen = Bloom.create seen_size seen_hashes;
    listens = false;
  }

  -- quasar_get_neighbor_filter
  unfoldable pub get_neighbor_filter : List Neighbor → Peer → Option (Attenuated Float)
  get_neighbor_filter [] p = none
  get_neighbor_filter (n ∷ rest) p =
      if is_from p n then some n.filter else get_neighbor_filter rest p

  -- The list without the first filter of a peer: the loop of quasar_remove_neighbor_filter.
  unfoldable pub remove_neighbor : List Neighbor → Peer → List Neighbor
  remove_neighbor [] p = []
  remove_neighbor (n ∷ rest) p = elim (is_from p n) [
    | true ↦ rest
    | false ↦ let kept = remove_neighbor rest p in n ∷ kept
  ]

  -- quasar_on_gossip from a known sender, after the packet is decoded.
  unfoldable pub on_gossip : Quasar → Peer → Attenuated Float → Option Quasar
  on_gossip q from decoded = Attenuated.merge floats q.routing decoded >>= λ routing.
      some (record q {
        routing = routing;
        neighbor_filters =
            remove_neighbor q.neighbor_filters from
            ++ record { peer = from; filter = decoded } ∷ [];
      })

  module _ (xxh3 : List ℕ → ℕ → ℕ) where
    -- quasar_route_message_add_visited and quasar_route_message_has_visited
    unfoldable pub add_visited : Message → Peer → Message
    add_visited msg p = record msg { visited = Bloom.add xxh3 msg.visited (node_key p) }

    unfoldable pub has_visited : Message → Peer → Bool
    has_visited msg p = Bloom.contains xxh3 msg.visited (node_key p)

    -- The local node's key at level 0, if it has an address or a port.
    abbrev pub add_own_key : Option Network → Attenuated Float → Attenuated Float
    add_own_key none a = a
    add_own_key (some network) a =
        if network.local_node.addr == 0 && network.local_node.port == 0 then a else elim a.levels [
          | [] ↦ a
          | e ∷ rest ↦ record {
            levels = Elastic.add floats xxh3 e (node_key network.local_node) ∷ rest;
          }
        ]

    -- quasar_subscribe; `none` is the access to level 0 of a filter without levels.
    unfoldable pub subscribe : Option Network → Quasar → List ℕ → ℕ → Option Quasar
    subscribe network q topic ttl = Attenuated.subscribe floats xxh3 q.routing topic >>= λ routing.
        some (record q {
          routing = add_own_key network routing;
          local_subs = q.local_subs ++ record { topic = topic; ttl = ttl } ∷ [];
        })

    -- quasar_unsubscribe
    unfoldable pub unsubscribe : Quasar → List ℕ → Option Quasar
    unsubscribe q topic = Attenuated.unsubscribe floats xxh3 q.routing topic >>= λ routing.
        some (record q { routing = routing; local_subs = drop_first topic q.local_subs })

    -- The loop of quasar_tick: the routing filter and the subscriptions that stay.
    unfoldable pub tick_loop :
        Attenuated Float → List Subscription → Option (Attenuated Float × List Subscription)
    tick_loop routing [] = some (routing, [])
    tick_loop routing (s ∷ subs) =
        if s.ttl == 1
        then (Attenuated.unsubscribe floats xxh3 routing s.topic >>= λ r. tick_loop r subs)
        else (tick_loop routing subs >>= λ (r, kept). some (r, record s { ttl = s.ttl - 1 } ∷ kept))

    -- quasar_tick
    unfoldable pub tick : Quasar → Option Quasar
    tick q = tick_loop q.routing q.local_subs >>= λ (r, kept).
        some (record q { routing = r; local_subs = kept })

    -- The negative information: a publisher's key stands at the level.
    abbrev pub negated : Filter Float → List Peer → Bool
    negated e [] = false
    negated e (p ∷ publishers) =
        if Elastic.contains floats xxh3 e (node_key p) then true else negated e publishers

    -- A neighbor that a directed walk takes at a level.
    abbrev pub leads : Message → ℕ → Neighbor → Bool
    leads msg level n = elim (Attenuated.get_level floats n.filter level) [
      | none ↦ false
      | some e ↦
          if Elastic.contains floats xxh3 e msg.topic then not (negated e msg.publishers) else false
    ]

    abbrev pub first_lead : (Neighbor → Bool) → List Neighbor → Option Neighbor
    first_lead test [] = none
    first_lead test (n ∷ rest) = if test n then some n else first_lead test rest

    -- The directed walk of quasar_on_route_message, with `n` levels left from `level` on.
    unfoldable pub directed : Message → List Neighbor → ℕ → ℕ → Option Neighbor
    directed msg neighbors zero level = none
    directed msg neighbors (suc n) level = elim (first_lead (leads msg level) neighbors) [
      | some target ↦ some target
      | none ↦ directed msg neighbors n (level + 1)
    ]

    -- The random walk: up to `alpha` packets, to peers that the message has not visited.
    unfoldable pub random_walk : ℕ → Message → List Peer → ℕ → List Effect
    random_walk alpha msg [] sent = []
    random_walk alpha msg (p ∷ peers) sent =
        if ltb sent alpha
        then (if has_visited msg p
            then random_walk alpha msg peers sent
            else Effect.send msg p ∷ random_walk alpha (add_visited msg p) peers (sent + 1))
        else []

    -- The peers of the network, none without one.
    abbrev pub peers_of : Option Network → List Peer
    peers_of none = []
    peers_of (some network) = network.peers

    abbrev pub local_of : Option Network → Peer
    local_of none = record { addr = 0; port = 0 }
    local_of (some network) = network.local_node

    -- What quasar_on_route_message does for a topic without a local subscription.
    abbrev pub forward : Option Network → Quasar → Message → List Effect
    forward network q msg =
        if msg.hops_remaining == 0
        then []
        else (let walking = record msg { hops_remaining = msg.hops_remaining - 1 } in
            elim (directed walking q.neighbor_filters (length q.routing.levels) 0) [
              | some target ↦ Effect.send walking target.peer ∷ []
              | none ↦ random_walk q.alpha walking (peers_of network) 0
            ])

    -- quasar_on_route_message: the overlay afterwards, and what it did.
    unfoldable pub on_route_message : Option Network → Quasar → Message → Quasar × List Effect
    on_route_message network q msg =
        if Bloom.contains xxh3 q.seen msg.id
        then (q, [])
        else (let q' = record q { seen = Bloom.add xxh3 q.seen msg.id } in
            let here = add_visited msg (local_of network) in
            if locally_subscribed q.local_subs msg.topic
            then (let published = add_publisher here (local_of network) in
                (
                  q',
                  (if q.listens then Effect.deliver msg.topic msg.payload ∷ [] else [])
                      ++ map (Effect.send published) (peers_of network),
                ))
            else (q', forward network q' here))
