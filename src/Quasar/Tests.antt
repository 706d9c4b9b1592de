-- ===== src/Quasar/Tests.antt =====
-- A small overlay: two peers, one subscription.
use poseidon.Prelude.{
  ℕ, ◌≤◌, ◌≡◌, ◌||◌, ◌==◌, refl, [], ◌∷◌, true, false, Option, none, some, arith, ltb,
  if◌then◌else◌, length, same_bytes, List,
}
use poseidon.Prelude.Entries.{find}
use poseidon.Prelude.Bits.{test_bit}
use poseidon.Bitset
use poseidon.Bloom
use poseidon.Probes
use poseidon.Elastic
use poseidon.Elastic.Tests.{hundredths, sample_hash, item}
use poseidon.Attenuated
use poseidon.Attenuated.{Attenuated}
use poseidon.Quasar.{
  Peer, Network, Message, Effect, has_publisher, locally_subscribed, Quasar, create,
  get_neighbor_filter, remove_neighbor, on_gossip, add_own_key, has_visited, subscribe, random_walk,
  forward, on_route_message,
}
use poseidon.Quasar.Routing.{
  AllSent, Distinct, IsRelayed, on_route_message_again, on_route_message_delivers,
  random_walk-Distinct, random_walk-unvisited, length-forward,
}
use poseidon.Quasar.Publish.{publish}
use poseidon.Quasar.Publish.Echo.{AllIgnored, publish-AllIgnored}
use poseidon.Quasar.Subscriptions.{
  filters_of, lasting, ticks, locally_subscribed-ticks, on_gossip_lem, locally_subscribed-subscribe,
}

abbrev first_peer : Peer
first_peer = record { addr = 10; port = 1 }

abbrev second_peer : Peer
second_peer = record { addr = 11; port = 1 }

abbrev network : Option Network
network =
    some
      (record { local_node = record { addr = 9; port = 1 }; peers = first_peer ∷ second_peer ∷ [] })

abbrev fresh : Quasar hundredths
fresh = create hundredths 4 2 75 8 2 1 16 2

-- It listens, and is subscribed to `item` for two ticks.
abbrev subscribed : Quasar hundredths
subscribed = record fresh { local_subs = record { topic = item; ttl = 2 } ∷ []; listens = true }

abbrev message : Message
message = record {
  id = 1 ∷ 2 ∷ [];
  topic = item;
  payload = 7 ∷ [];
  visited = Bloom.create 16 2;
  hops_remaining = 3;
  publishers = [];
}

on_route_message_again_example :
    on_route_message hundredths sample_hash none
      (on_route_message hundredths sample_hash network subscribed message).0
      message
    ≡ ((on_route_message hundredths sample_hash network subscribed message).0, [])
on_route_message_again_example =
    on_route_message_again hundredths sample_hash network none subscribed message message refl

on_route_message_delivers_example :
    (sent : Message) × IsRelayed hundredths sample_hash message (record { addr = 9; port = 1 }) sent
    × ((on_route_message hundredths sample_hash network subscribed message).0
        ≡ record subscribed { seen = Bloom.add sample_hash subscribed.seen message.id })
    × ((on_route_message hundredths sample_hash network subscribed message).1
        ≡ Effect.deliver item (7 ∷ [])
          ∷ Effect.send sent first_peer
          ∷ Effect.send sent second_peer
          ∷ [])
    × (has_publisher sent (record { addr = 9; port = 1 }) ≡ true)
    × (has_visited hundredths sample_hash sent (record { addr = 9; port = 1 }) ≡ true)
unfolding create Bloom.create Bloom.contains Probes.present Bitset.create Bitset.get find test_bit
on_route_message_delivers_example =
    on_route_message_delivers hundredths sample_hash network subscribed message (omega arith)
      (omega arith) refl refl

random_walk-Distinct_example :
    Distinct
      (random_walk hundredths sample_hash 2 message (first_peer ∷ first_peer ∷ second_peer ∷ []) 0)
random_walk-Distinct_example =
    random_walk-Distinct hundredths sample_hash 2 message
      (first_peer ∷ first_peer ∷ second_peer ∷ []) 0

random_walk-unvisited_example :
    AllSent
      (λ m q. has_visited hundredths sample_hash message q ≡ false)
      (random_walk hundredths sample_hash 2 message (first_peer ∷ second_peer ∷ []) 0)
random_walk-unvisited_example =
    random_walk-unvisited hundredths sample_hash 2 message (first_peer ∷ second_peer ∷ []) 0

length-forward_example :
    length (forward hundredths sample_hash network fresh message)
    ≤ (if message.hops_remaining == 0 then 0 else if ltb 1 fresh.alpha then fresh.alpha else 1)
length-forward_example = length-forward hundredths sample_hash network fresh message

locally_subscribed-ticks_example :
    (q : Quasar hundredths) × (ticks hundredths sample_hash 2 subscribed ≡ some q)
    × (locally_subscribed q.local_subs item ≡ ltb 0 (lasting 2 item subscribed.local_subs))
unfolding create Attenuated.create
locally_subscribed-ticks_example =
    locally_subscribed-ticks hundredths sample_hash 2 subscribed item (omega arith)

abbrev gossip : Attenuated ℕ
gossip = Attenuated.create hundredths 2 4 2 75 8

abbrev merged : Attenuated ℕ
merged = record {
  levels =
      Elastic.create hundredths 4 2 75 8
      ∷ Attenuated.merge_levels hundredths (Elastic.create hundredths 4 2 75 8 ∷ []) gossip.levels;
}

abbrev informed : Quasar hundredths
informed = record fresh {
  routing = merged;
  neighbor_filters = record { peer = first_peer; filter = gossip } ∷ [];
}

on_gossip_lem_example :
    (get_neighbor_filter hundredths informed.neighbor_filters first_peer ≡ some gossip)
    × ((p : Peer) → filters_of hundredths p informed.neighbor_filters ≤ 1)
unfolding create Attenuated.create on_gossip Attenuated.merge remove_neighbor
on_gossip_lem_example =
    on_gossip_lem hundredths fresh informed first_peer gossip (λ p. omega arith) refl

abbrev after_subscribe : Quasar hundredths
after_subscribe = record fresh {
  routing = add_own_key hundredths sample_hash none (record {
    levels =
        Elastic.add hundredths sample_hash (Elastic.create hundredths 4 2 75 8) item
        ∷ Elastic.create hundredths 4 2 75 8
        ∷ [];
  });
  local_subs = record { topic = item; ttl = 2 } ∷ [];
}

locally_subscribed-subscribe_example :
    locally_subscribed after_subscribe.local_subs item
    ≡ (locally_subscribed fresh.local_subs item || same_bytes item item)
unfolding create Attenuated.create subscribe Attenuated.subscribe
locally_subscribed-subscribe_example =
    locally_subscribed-subscribe hundredths sample_hash none fresh after_subscribe item item 2 refl

abbrev after_unsubscribe : Quasar hundredths
after_unsubscribe = record subscribed {
  routing = record {
    levels =
        Elastic.remove hundredths sample_hash (Elastic.create hundredths 4 2 75 8) item
        ∷ Elastic.create hundredths 4 2 75 8
        ∷ [];
  };
  local_subs = [];
}

abbrev numbered : ℕ → List ℕ
numbered i = i ∷ 9 ∷ []

publish-AllIgnored_example :
    AllIgnored hundredths sample_hash
      (publish hundredths sample_hash network numbered subscribed item (7 ∷ [])).0
      (publish hundredths sample_hash network numbered subscribed item (7 ∷ [])).1
publish-AllIgnored_example =
    publish-AllIgnored hundredths sample_hash network numbered subscribed item (7 ∷ [])
