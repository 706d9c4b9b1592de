-- ===== src/Quasar/Publish/Echo.antt =====
-- What a node does with the copies of a message that it published.
use poseidon.Prelude.{
  ℕ, zero, suc, ◌+◌, ◌≡◌, refl, inl, inr, Bool, true, false, Option, none, some, List, [], ◌∷◌,
  ◌++◌, ltb, if◌then◌else◌, Bool-cases, if_intro,
}
use poseidon.Bloom
use poseidon.Bloom.Membership.{contains-add_self, contains-add_mono}
use poseidon.Elastic.{Floats}
use poseidon.Quasar.{
  Peer, Network, Message, Effect, locally_subscribed, Quasar, add_visited, add_publisher, Neighbor,
  has_visited, random_walk, on_route_message, peers_of, local_of,
}
use poseidon.Quasar.Publish.{
  create_message, own_message, republish, publish_randomly, publish_along, directed_target, publish,
  see,
}

module _ (floats : Floats) (xxh3 : List ℕ → ℕ → ℕ) where
  -- A handler of any network ignores every message that was sent.
  abbrev pub AllIgnored : Quasar floats → List Effect → Type 0
  AllIgnored q [] = zero ≡ zero
  AllIgnored q (Effect.deliver topic payload ∷ rest) = AllIgnored q rest
  AllIgnored q (Effect.send msg p ∷ rest) =
      ((network : Option Network) → on_route_message floats xxh3 network q msg ≡ (q, []))
      × AllIgnored q rest

  ignores_seen :
      (q : Quasar floats) (msg : Message)
      → Bloom.contains xxh3 q.seen msg.id ≡ true
      → (network : Option Network) → on_route_message floats xxh3 network q msg ≡ (q, [])
  unfolding on_route_message
  ignores_seen q msg h network = rw h refl

  republish-seen :
      (ids : ℕ → List ℕ) (local : Peer) (topic payload : List ℕ) (q : Quasar floats) (i : ℕ)
      (peers : List Peer) (d : List ℕ)
      → Bloom.contains xxh3 q.seen d ≡ true
      → Bloom.contains xxh3 (republish floats xxh3 ids local topic payload q i peers).0.seen d
        ≡ true
  unfolding republish
  republish-seen ids local topic payload q i [] d h = h
  republish-seen ids local topic payload q i (p ∷ peers) d h =
      republish-seen ids local topic payload (see floats xxh3 q (ids i)) (suc i) peers d
        (contains-add_mono xxh3 q.seen (ids i) d h)

  republish-AllIgnored :
      (ids : ℕ → List ℕ) (local : Peer) (topic payload : List ℕ) (q : Quasar floats) (i : ℕ)
      (peers : List Peer)
      → AllIgnored
          (republish floats xxh3 ids local topic payload q i peers).0
          (republish floats xxh3 ids local topic payload q i peers).1
  unfolding republish add_visited add_publisher create_message
  republish-AllIgnored ids local topic payload q i [] = refl
  republish-AllIgnored ids local topic payload q i (p ∷ peers) =
      let next : Quasar floats = see floats xxh3 q (ids i) in
      (
        ignores_seen (republish floats xxh3 ids local topic payload next (suc i) peers).0
            (own_message floats xxh3 local (ids i) topic payload q.max_hops)
            (republish-seen ids local topic payload next (suc i) peers (ids i)
              (contains-add_self xxh3 q.seen (ids i))),
        republish-AllIgnored ids local topic payload next (suc i) peers,
      )

  random_walk-AllIgnored :
      (q : Quasar floats) (alpha : ℕ) (msg : Message) (peers : List Peer) (sent : ℕ)
      → Bloom.contains xxh3 q.seen msg.id ≡ true
      → AllIgnored q (random_walk floats xxh3 alpha msg peers sent)
  unfolding random_walk add_visited
  random_walk-AllIgnored q alpha msg [] sent h = refl
  random_walk-AllIgnored q alpha msg (p ∷ peers) sent h =
      if_intro (AllIgnored q) (ltb sent alpha) _ []
        (λ _.
          if_intro (AllIgnored q) (has_visited floats xxh3 msg p) _ _
            (λ _. random_walk-AllIgnored q alpha msg peers sent h)
            (λ _. (
              ignores_seen q msg h,
              random_walk-AllIgnored q alpha (add_visited floats xxh3 msg p) peers (sent + 1) h,
            )))
        (λ _. refl)

  AllIgnored-deliver :
      (q : Quasar floats) (listens : Bool) (topic payload : List ℕ) (effects : List Effect)
      → AllIgnored q effects
      → AllIgnored q ((if listens then Effect.deliver topic payload ∷ [] else []) ++ effects)
  AllIgnored-deliver q true topic payload effects h = h
  AllIgnored-deliver q false topic payload effects h = h

  publish_along-AllIgnored :
      (target : Option (Neighbor floats)) (network : Option Network) (q : Quasar floats)
      (id topic payload : List ℕ)
      → AllIgnored
          (publish_along floats xxh3 target network q id topic payload).0
          (publish_along floats xxh3 target network q id topic payload).1
  unfolding publish_along publish_randomly add_visited add_publisher create_message
  publish_along-AllIgnored none none q id topic payload = refl
  publish_along-AllIgnored none (some network) q id topic payload =
      random_walk-AllIgnored (see floats xxh3 q id) q.alpha _ network.peers 0
        (contains-add_self xxh3 q.seen id)
  publish_along-AllIgnored (some target) network q id topic payload = (
    ignores_seen (see floats xxh3 q id)
        (own_message floats xxh3 (local_of floats xxh3 network) id topic payload q.max_hops)
        (contains-add_self xxh3 q.seen id),
    refl,
  )

  -- After a publication, the node that made it ignores every message that it sent: handled again,
  -- in any network, such a message changes nothing and has no effect.
  pub publish-AllIgnored :
      (network : Option Network) (ids : ℕ → List ℕ) (q : Quasar floats) (topic payload : List ℕ)
      → AllIgnored
          (publish floats xxh3 network ids q topic payload).0
          (publish floats xxh3 network ids q topic payload).1
  unfolding publish
  publish-AllIgnored network ids q topic payload =
      elim (Bool-cases (locally_subscribed q.local_subs topic)) [
        | inl e ↦ rw e (
            AllIgnored-deliver _ q.listens topic payload _ (
              republish-AllIgnored ids (local_of floats xxh3 network) topic payload q 0
                (peers_of floats xxh3 network)))
        | inr e ↦ rw e (
            publish_along-AllIgnored (directed_target floats xxh3 network q topic) network q (ids 0)
              topic payload)
      ]
