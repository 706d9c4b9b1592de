-- ===== src/Quasar/Subscriptions.antt =====
-- The overlay's tables: local subscriptions with a time to live, and one filter for each neighbor.
use poseidon.Prelude.{
  ℕ, zero, suc, ◌+◌, ◌-◌, ◌≤◌, ◌<◌, ◌≡◌, ◌∙◌, refl, sym, ap, List, [], ◌∷◌, ◌++◌, Bool, true, ◌&&◌,
  ◌||◌, Option, some, arith, ltb, ◌==◌, if◌then◌else◌, length, Bool-cases, Option-cases, List-cases,
  inl, inr, same_bytes, same_bytes_iff, ◌>>=◌,
}
use poseidon.Prelude.Entries.{find, count, count-append, count_of_absent, count_of_present}
use poseidon.Elastic
use poseidon.Elastic.{Floats, Filter}
use poseidon.Attenuated
use poseidon.Attenuated.{Attenuated}
use poseidon.Quasar.{
  unsubscribe, Peer, same_peer, Network, Subscription, is_topic, locally_subscribed, drop_first,
  Neighbor, Quasar, is_from, get_neighbor_filter, remove_neighbor, on_gossip, add_own_key,
  subscribe, tick_loop, tick,
}

locally_subscribed-count :
    (subs : List Subscription) (topic : List ℕ)
    → locally_subscribed subs topic ≡ ltb 0 (count (is_topic topic) subs)
locally_subscribed-count subs topic = elim (Option-cases (find (is_topic topic) subs)) [
  | inl absent ↦ ground (arith, absent, count_of_absent (is_topic topic) subs absent)
  | inr (i, present) ↦ ground (arith, present, count_of_present (is_topic topic) subs i present)
]

-- The subscriptions to a topic that are left after `n` ticks: those with more time to live, and those
-- with none, which never expire.
abbrev pub lasting : ℕ → List ℕ → List Subscription → ℕ
lasting n topic subs = count (λ s. is_topic topic s && (s.ttl == 0 || ltb n s.ttl)) subs

lasting-zero :
    (topic : List ℕ) (subs : List Subscription) → lasting 0 topic subs ≡ count (is_topic topic) subs
lasting-zero topic [] = refl
lasting-zero topic (s ∷ subs) = ground (arith, lasting-zero topic subs)

count-drop_first :
    (topic : List ℕ) (subs : List Subscription) (q : List ℕ)
    → count (is_topic q) (drop_first topic subs)
      ≡ count (is_topic q) subs
        - (if ltb 0 (count (is_topic topic) subs) && same_bytes topic q then 1 else 0)
count-drop_first topic [] q = omega arith
count-drop_first topic (s ∷ subs) q = ground (
  arith,
  count-drop_first topic subs q,
  same_bytes_iff s.topic topic,
  same_bytes_iff topic q,
  same_bytes_iff s.topic q,
  λ (e : s.topic ≡ q) (f : topic ≡ q). e ∙ sym f,
  λ (e : s.topic ≡ topic). ap {B = Bool} (λ p. same_bytes p q) e,
)

module _ (floats : Floats) where
  open floats use {Float}

  -- The number of filters kept for a peer.
  abbrev pub filters_of : Peer → List (Neighbor floats) → ℕ
  filters_of p = count (is_from floats p)

  filters_of-remove_neighbor :
      (p from : Peer) (ns : List (Neighbor floats))
      → filters_of p (remove_neighbor floats ns from) ≤ filters_of p ns
  unfolding remove_neighbor
  filters_of-remove_neighbor p from [] = omega arith
  filters_of-remove_neighbor p from (n ∷ ns) = ground (arith, filters_of-remove_neighbor p from ns)

  filters_of-removed :
      (p from : Peer) (ns : List (Neighbor floats))
      → same_peer from p ≡ true
      → filters_of p (remove_neighbor floats ns from) ≡ filters_of p ns - 1
  unfolding remove_neighbor
  filters_of-removed p from [] h = omega arith
  filters_of-removed p from (n ∷ ns) h = ground (arith, filters_of-removed p from ns h)

  filters_of-append :
      (p : Peer) (ns ms : List (Neighbor floats))
      → filters_of p (ns ++ ms) ≡ filters_of p ns + filters_of p ms
  filters_of-append p ns ms = count-append (is_from floats p) ns ms

  get-append :
      (p : Peer) (ns ms : List (Neighbor floats))
      → filters_of p ns ≡ 0
      → get_neighbor_filter floats (ns ++ ms) p ≡ get_neighbor_filter floats ms p
  unfolding get_neighbor_filter
  get-append p [] ms h = refl
  get-append p (n ∷ ns) ms h = ground (arith, get-append p ns ms)

  -- From a table with at most one filter for each peer, gossip that is merged leaves such a table,
  -- and the sender's filter is the one it sent.
  pub on_gossip_lem :
      (q q' : Quasar floats) (from : Peer) (decoded : Attenuated Float)
      → ((p : Peer) → filters_of p q.neighbor_filters ≤ 1)
      → on_gossip floats q from decoded ≡ some q'
      → (get_neighbor_filter floats q'.neighbor_filters from ≡ some decoded)
        × ((p : Peer) → filters_of p q'.neighbor_filters ≤ 1)
  unfolding on_gossip get_neighbor_filter
  on_gossip_lem q q' from decoded h e =
      let new : Neighbor floats = record { peer = from; filter = decoded } in
      elim (Option-cases (Attenuated.merge floats q.routing decoded)) [
        | inl no_merge ↦ absurd (ground (arith, e, no_merge))
        | inr (routing, merged) ↦
            let left : List (Neighbor floats) = remove_neighbor floats q.neighbor_filters from in
            let known : record q { routing = routing; neighbor_filters = left ++ new ∷ [] } ≡ q' =
              ground (arith, e, merged) in
            let self : same_peer from from ≡ true = ground arith in
            rw (← known) (
              get-append from left (new ∷ [])
                    (omega (arith, filters_of-removed from from q.neighbor_filters self, h from))
                  ∙ ground (arith, self),
              λ p. elim (Bool-cases (same_peer from p)) [
                | inl same ↦ ground (
                  arith,
                  same,
                  filters_of-append p left (new ∷ []),
                  filters_of-removed p from q.neighbor_filters same,
                  h p,
                )
                | inr other ↦ ground (
                  arith,
                  other,
                  filters_of-append p left (new ∷ []),
                  filters_of-remove_neighbor p from q.neighbor_filters,
                  h p,
                )
              ],
            )
      ]

  module _ (xxh3 : List ℕ → ℕ → ℕ) where
    -- After a subscription that does not fail, its topic is subscribed, and every other topic is
    -- subscribed where it was before.
    pub locally_subscribed-subscribe :
        (network : Option Network) (q q' : Quasar floats) (topic other : List ℕ) (ttl : ℕ)
        → subscribe floats xxh3 network q topic ttl ≡ some q'
        → locally_subscribed q'.local_subs other
          ≡ (locally_subscribed q.local_subs other || same_bytes topic other)
    unfolding subscribe
    locally_subscribed-subscribe network q q' topic other ttl e =
        let new : Subscription = record { topic = topic; ttl = ttl } in
        elim (Option-cases (Attenuated.subscribe floats xxh3 q.routing topic)) [
          | inl no_level ↦ absurd (ground (arith, e, no_level))
          | inr (routing, added) ↦
              let known : record q {
                routing = add_own_key floats xxh3 network routing;
                local_subs = q.local_subs ++ new ∷ [];
              }
                  ≡ q' =
                ground (arith, e, added) in
              rw (← known, locally_subscribed-count, locally_subscribed-count)
                (ground (arith, count-append (is_topic other) q.local_subs (new ∷ [])))
        ]

    -- `n` ticks.
    abbrev pub ticks : ℕ → Quasar floats → Option (Quasar floats)
    ticks zero q = some q
    ticks (suc n) q = tick floats xxh3 q >>= λ q'. ticks n q'

    -- An unsubscription keeps the levels of a filter that has some.
    unsubscribe_total :
        (a : Attenuated Float) (topic : List ℕ)
        → 0 < length a.levels
        → (a' : Attenuated Float) × (Attenuated.unsubscribe floats xxh3 a topic ≡ some a')
          × (0 < length a'.levels)
    unfolding Attenuated.unsubscribe
    unsubscribe_total a topic h = elim (List-cases a.levels) [
      | inl e ↦ absurd (omega (arith, ap {B = ℕ} length e))
      | inr (f, rest, e) ↦
          (record { levels = Elastic.remove floats xxh3 f topic ∷ rest }, rw e refl, omega arith)
    ]

    tick_loop_lem :
        (routing : Attenuated Float) (subs : List Subscription)
        → 0 < length routing.levels
        → (r : Attenuated Float) × (kept : List Subscription) × (tick_loop floats xxh3 routing subs
            ≡ some (r, kept))
          × (0 < length r.levels)
          × ((n : ℕ) (topic : List ℕ) → lasting n topic kept ≡ lasting (suc n) topic subs)
    unfolding tick_loop
    tick_loop_lem routing [] h = (routing, [], refl, h, λ n topic. refl)
    tick_loop_lem routing (s ∷ subs) h = elim (Bool-cases (s.ttl == 1)) [
      | inl last ↦
          let (r, removed, levels) = unsubscribe_total routing s.topic h in
          let (r', kept, ends, levels', counts) = tick_loop_lem r subs levels in
          (
            r',
            kept,
            rw (last, removed) ends,
            levels',
            λ n topic. ground (arith, last, counts n topic),
          )
      | inr more ↦
          let (r, kept, ends, levels, counts) = tick_loop_lem routing subs h in
          (
            r,
            record s { ttl = s.ttl - 1 } ∷ kept,
            rw (more, ends) refl,
            levels,
            λ n topic. ground (arith, more, counts n topic),
          )
    ]

    -- On a routing filter with levels, ticks do not fail, and a topic is subscribed after `n` of
    -- them exactly where it has a subscription with more than `n` ticks to live, or one that had
    -- none from the start.
    pub locally_subscribed-ticks :
        (n : ℕ) (q : Quasar floats) (topic : List ℕ)
        → 0 < length q.routing.levels
        → (q' : Quasar floats) × (ticks n q ≡ some q')
          × (locally_subscribed q'.local_subs topic ≡ ltb 0 (lasting n topic q.local_subs))
    unfolding tick
    locally_subscribed-ticks zero q topic h = (
      q,
      refl,
      ground (arith, locally_subscribed-count q.local_subs topic, lasting-zero topic q.local_subs),
    )
    locally_subscribed-ticks (suc n) q topic h =
        let (r, kept, ends, levels, counts) = tick_loop_lem q.routing q.local_subs h in
        let next : Quasar floats = record q { routing = r; local_subs = kept } in
        let (q', done, answer) = locally_subscribed-ticks n next topic levels in
        (q', rw ends done, ground (arith, answer, counts n topic))

    -- An unsubscription that does not fail takes away one subscription to its topic, if there is
    -- one, and no other.
    pub count-unsubscribe :
        (q q' : Quasar floats) (topic other : List ℕ)
        → unsubscribe floats xxh3 q topic ≡ some q'
        → count (is_topic other) q'.local_subs
          ≡ count (is_topic other) q.local_subs
            - (if ltb 0 (count (is_topic topic) q.local_subs) && same_bytes topic other
                then 1
                else 0)
    unfolding unsubscribe
    count-unsubscribe q q' topic other e =
        elim (Option-cases (Attenuated.unsubscribe floats xxh3 q.routing topic)) [
          | inl no_level ↦ absurd (ground (arith, e, no_level))
          | inr (routing, removed) ↦
              let known : record q { routing = routing; local_subs = drop_first topic q.local_subs }
                  ≡ q' =
                ground (arith, e, removed) in
              rw (← known) (count-drop_first topic q.local_subs other)
        ]
