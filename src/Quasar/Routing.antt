-- ===== src/Quasar/Routing.antt =====
-- The handler of routed messages, and its random walk.
use poseidon.Prelude.{
  ℕ, zero, ◌+◌, ◌-◌, ◌≤◌, ◌<◌, ◌≡◌, ◌≢◌, ◌∙◌, refl, ap, List, [], ◌∷◌, ◌++◌, map, Bool, true, false,
  Option, arith, ltb, ◌==◌, if◌then◌else◌, length, if_intro, Bool-cases, Option-cases, inl, inr,
}
use poseidon.Bloom
use poseidon.Bloom.Membership.{contains-add_self, contains-add_mono}
use poseidon.Elastic.{Floats}
use poseidon.Prelude.Entries.{find, count_of_absent, count-append}
use poseidon.Quasar.{
  same_peer, has_publisher, add_publisher, Peer, Network, node_key, Message, Effect,
  locally_subscribed, Quasar, add_visited, has_visited, random_walk, directed, forward, peers_of,
  local_of, on_route_message,
}

-- Every packet goes to a peer with a property, and no effect delivers.
abbrev pub AllSent : (Message → Peer → Type 0) → List Effect → Type 0
AllSent P [] = zero ≡ zero
AllSent P (Effect.deliver topic payload ∷ rest) = zero ≡ 1
AllSent P (Effect.send msg p ∷ rest) = P msg p × AllSent P rest

AllSent-weaken :
    (P Q : Message → Peer → Type 0) (effects : List Effect)
    → ((m : Message) (p : Peer) → P m p → Q m p)
    → AllSent P effects
    → AllSent Q effects
AllSent-weaken P Q [] f h = h
AllSent-weaken P Q (Effect.deliver topic payload ∷ rest) f h = h
AllSent-weaken P Q (Effect.send msg p ∷ rest) f (h, hs) = (f msg p h, AllSent-weaken P Q rest f hs)

-- No two packets go to peers with the same key.
abbrev pub Distinct : List Effect → Type 0
Distinct [] = zero ≡ zero
Distinct (Effect.deliver topic payload ∷ rest) = Distinct rest
Distinct (Effect.send msg p ∷ rest) = AllSent (λ m q. node_key q ≢ node_key p) rest × Distinct rest

module _ (floats : Floats) (xxh3 : List ℕ → ℕ → ℕ) where
  -- A visit is remembered, and no earlier one is forgotten.
  has_visited_mono :
      (msg : Message) (p q : Peer)
      → has_visited floats xxh3 (add_visited floats xxh3 msg p) q ≡ false
      → has_visited floats xxh3 msg q ≡ false
  unfolding has_visited add_visited
  has_visited_mono msg p q h = elim (Bool-cases (Bloom.contains xxh3 msg.visited (node_key q))) [
    | inr no_visit ↦ no_visit
    | inl visit ↦
        absurd
          (ground (arith, h, contains-add_mono xxh3 msg.visited (node_key p) (node_key q) visit))
  ]

  differs_of_unvisited :
      (msg : Message) (p q : Peer)
      → has_visited floats xxh3 (add_visited floats xxh3 msg p) q ≡ false
      → node_key q ≢ node_key p
  unfolding has_visited add_visited
  differs_of_unvisited msg p q h e = absurd (
      ground (
        arith,
        h,
        contains-add_self xxh3 msg.visited (node_key p),
        ap {B = Bool} (Bloom.contains xxh3 (Bloom.add xxh3 msg.visited (node_key p))) e,
      ))

  -- A random walk sends only to peers that the message had not visited when the walk began.
  pub random_walk-unvisited :
      (alpha : ℕ) (msg : Message) (peers : List Peer) (sent : ℕ)
      → AllSent
          (λ m q. has_visited floats xxh3 msg q ≡ false)
          (random_walk floats xxh3 alpha msg peers sent)
  unfolding random_walk
  random_walk-unvisited alpha msg [] sent = refl
  random_walk-unvisited alpha msg (p ∷ peers) sent =
      let P : List Effect → Type 0 = AllSent (λ m q. has_visited floats xxh3 msg q ≡ false) in
      let next : Message = add_visited floats xxh3 msg p in
      if_intro P (ltb sent alpha) _ _
        (λ _.
          if_intro P (has_visited floats xxh3 msg p) _ _
            (λ _. random_walk-unvisited alpha msg peers sent)
            (λ fresh. (
              fresh,
              AllSent-weaken _ _ _ (λ m q. has_visited_mono msg p q)
                  (random_walk-unvisited alpha next peers (sent + 1)),
            )))
        (λ _. refl)

  -- A random walk sends to no two peers with the same key.
  pub random_walk-Distinct :
      (alpha : ℕ) (msg : Message) (peers : List Peer) (sent : ℕ)
      → Distinct (random_walk floats xxh3 alpha msg peers sent)
  unfolding random_walk
  random_walk-Distinct alpha msg [] sent = refl
  random_walk-Distinct alpha msg (p ∷ peers) sent =
      let next : Message = add_visited floats xxh3 msg p in
      if_intro Distinct (ltb sent alpha) _ _
        (λ _.
          if_intro Distinct (has_visited floats xxh3 msg p) _ _
            (λ _. random_walk-Distinct alpha msg peers sent)
            (λ fresh. (
              AllSent-weaken _ _ _ (λ m q. differs_of_unvisited msg p q)
                  (random_walk-unvisited alpha next peers (sent + 1)),
              random_walk-Distinct alpha next peers (sent + 1),
            )))
        (λ _. refl)

  -- It sends at most `alpha` packets, those before included.
  pub length-random_walk :
      (alpha : ℕ) (msg : Message) (peers : List Peer) (sent : ℕ)
      → length (random_walk floats xxh3 alpha msg peers sent) ≤ alpha - sent
  unfolding random_walk
  length-random_walk alpha msg [] sent = omega arith
  length-random_walk alpha msg (p ∷ peers) sent = ground (
    arith,
    length-random_walk alpha msg peers sent,
    length-random_walk alpha (add_visited floats xxh3 msg p) peers (sent + 1),
  )

  seen_after :
      (network : Option Network) (q : Quasar floats) (msg : Message)
      → Bloom.contains xxh3 (on_route_message floats xxh3 network q msg).0.seen msg.id ≡ true
  unfolding on_route_message
  seen_after network q msg =
      let P : Quasar floats × List Effect → Type 0 =
        λ r. Bloom.contains xxh3 r.0.seen msg.id ≡ true in
      let marked : Bloom.contains xxh3 (Bloom.add xxh3 q.seen msg.id) msg.id ≡ true =
        contains-add_self xxh3 q.seen msg.id in
      let here : Message = add_visited floats xxh3 msg (local_of floats xxh3 network) in
      if_intro P (Bloom.contains xxh3 q.seen msg.id) _ _ (λ h. h)
        (λ _.
          if_intro P (locally_subscribed q.local_subs msg.topic) _ _ (λ _. marked) (λ _. marked))

  -- A message that was seen is dropped.
  on_route_message_seen :
      (network : Option Network) (q : Quasar floats) (msg : Message)
      → Bloom.contains xxh3 q.seen msg.id ≡ true
      → on_route_message floats xxh3 network q msg ≡ (q, [])
  unfolding on_route_message
  on_route_message_seen network q msg h = rw h refl

  -- A message is handled once: after it, a message with the same identifier changes nothing, and
  -- has no effect.
  pub on_route_message_again :
      (network network' : Option Network) (q : Quasar floats) (msg msg' : Message)
      → msg'.id ≡ msg.id
      → on_route_message floats xxh3 network' (on_route_message floats xxh3 network q msg).0 msg'
        ≡ ((on_route_message floats xxh3 network q msg).0, [])
  on_route_message_again network network' q msg msg' e =
      let q' : Quasar floats = (on_route_message floats xxh3 network q msg).0 in
      on_route_message_seen network' q' msg'
        (ap (Bloom.contains xxh3 q'.seen) e ∙ seen_after network q msg)

  -- A message without a local subscription is forwarded at most `alpha` times, or once by a
  -- directed walk, and not at all without hops left.
  pub length-forward :
      (network : Option Network) (q : Quasar floats) (msg : Message)
      → length (forward floats xxh3 network q msg)
        ≤ (if msg.hops_remaining == 0 then 0 else if ltb 1 q.alpha then q.alpha else 1)
  length-forward network q msg =
      let walking : Message = record msg { hops_remaining = msg.hops_remaining - 1 } in
      let peers : List Peer = peers_of floats xxh3 network in
      elim (Option-cases
        (directed floats xxh3 walking q.neighbor_filters (length q.routing.levels) 0)) [
          | inl lost ↦ rw lost (ground (arith, length-random_walk q.alpha walking peers 0))
          | inr (target, found) ↦ rw found (ground arith)
        ]

  -- What a delivered message is sent on as: itself, with a node more among its publishers and among
  -- the nodes it has visited.
  pub record IsRelayed (msg : Message) (own : Peer) (sent : Message) : Type 0 where
    pub same_id : sent.id ≡ msg.id
    pub same_topic : sent.topic ≡ msg.topic
    pub same_payload : sent.payload ≡ msg.payload
    pub same_hops : sent.hops_remaining ≡ msg.hops_remaining
    pub one_publisher : sent.publishers ≡ msg.publishers ++ own ∷ []
    pub one_visit : sent.visited ≡ Bloom.add xxh3 msg.visited (node_key own)

  has_publisher-add_publisher :
      (msg : Message) (p : Peer) → has_publisher (add_publisher msg p) p ≡ true
  unfolding has_publisher add_publisher
  has_publisher-add_publisher msg p =
      elim (Option-cases (find (λ q. same_peer q p) (msg.publishers ++ p ∷ []))) [
        | inl absent ↦ absurd (
            ground (
              arith,
              count_of_absent (λ q. same_peer q p) (msg.publishers ++ p ∷ []) absent,
              count-append (λ q. same_peer q p) msg.publishers (p ∷ []),
            ))
        | inr (i, present) ↦ ground (arith, present)
      ]

  -- Where the filters of the overlay and of the message have positive sizes, a message that was
  -- not seen, with a topic that has a local subscription, is delivered if there is a callback, and
  -- then, with or without one, sent to each connected peer, once and in their order. What is sent
  -- has the identifier, topic, payload and hops of the message, with the local node added at the
  -- end of its publishers and to the filter of visited nodes, and both show the local node. Of the
  -- overlay, only the filter of seen messages changes: the identifier is added.
  pub on_route_message_delivers :
      (network : Option Network) (q : Quasar floats) (msg : Message)
      → 0 < q.seen.size
      → 0 < msg.visited.size
      → Bloom.contains xxh3 q.seen msg.id ≡ false
      → locally_subscribed q.local_subs msg.topic ≡ true
      → (sent : Message) × IsRelayed msg (local_of floats xxh3 network) sent
        × ((on_route_message floats xxh3 network q msg).0
            ≡ record q { seen = Bloom.add xxh3 q.seen msg.id })
        × ((on_route_message floats xxh3 network q msg).1
            ≡ (if q.listens then Effect.deliver msg.topic msg.payload ∷ [] else [])
              ++ map (Effect.send sent) (peers_of floats xxh3 network))
        × (has_publisher sent (local_of floats xxh3 network) ≡ true)
        × (has_visited floats xxh3 sent (local_of floats xxh3 network) ≡ true)
  unfolding on_route_message has_visited add_publisher add_visited
  on_route_message_delivers network q msg seen_size visited_size unseen subscribed =
      let own : Peer = local_of floats xxh3 network in
      let here : Message = add_visited floats xxh3 msg own in
      (
        add_publisher here own,
        record {
          same_id = refl;
          same_topic = refl;
          same_payload = refl;
          same_hops = refl;
          one_publisher = refl;
          one_visit = refl;
        },
        rw (unseen, subscribed) refl,
        rw (unseen, subscribed) refl,
        has_publisher-add_publisher here own,
        contains-add_self xxh3 msg.visited (node_key own),
      )
