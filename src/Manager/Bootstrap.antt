-- ===== src/Manager/Bootstrap.antt =====
-- A channel that is joined, and the reply to its bootstrap.
use poseidon.Prelude.{
  ℕ, zero, suc, ◌-◌, ◌≤◌, ◌<◌, ◌≡◌, refl, ap, ◌∙◌, Bool, true, false, Option, none, some, List, [],
  ◌∷◌, ◌++◌, arith, leb, ◌==◌, same_bytes_refl, length, get_or, set, take, drop, length-append,
  get_or-append,
}
use poseidon.Prelude.Entries.{find, swap_remove, count}
use poseidon.Manager.{
  Manager, Channel, Pending, State, max_channels, max_pending, allocate_port, join_channel,
  destroy_channel, has_node_id, no_channel, no_pending, answers, handle_bootstrap_reply,
}

-- An entry that was put behind the others.
module _ {ℓ} {A : Type ℓ} (xs : List A) (y : A) where
  get_or-last : (d : A) → get_or (xs ++ y ∷ []) (length xs) d ≡ y
  get_or-last d = ground (arith, get_or-append xs (y ∷ []) (length xs) d)

find-last :
    {A : Type 0} (test : A → Bool) (xs : List A) (y : A)
    → count test xs ≡ 0
    → test y ≡ true
    → find test (xs ++ y ∷ []) ≡ some (length xs)
unfolding find
find-last test [] y h k = ground (arith, k)
find-last test (x ∷ xs) y h k = ground (arith, h, find-last test xs y)

find-absent : {A : Type 0} (test : A → Bool) (xs : List A) → count test xs ≡ 0 → find test xs ≡ none
unfolding find
find-absent test [] h = refl
find-absent test (x ∷ xs) h = ground (arith, h, find-absent test xs)

set-last : {A : Type 0} (xs : List A) (y z : A) → set (xs ++ y ∷ []) (length xs) z ≡ xs ++ z ∷ []
set-last [] y z = refl
set-last (x ∷ xs) y z = ap (◌∷◌ x) (set-last xs y z)

without-last :
    {A : Type 0} (xs : List A) (y : A)
    → take (length xs) (xs ++ y ∷ []) ++ drop (suc (length xs)) (xs ++ y ∷ []) ≡ xs
without-last [] y = refl
without-last (x ∷ xs) y = ap (◌∷◌ x) (without-last xs y)

take-last : {A : Type 0} (xs : List A) (y : A) → take (length xs) (xs ++ y ∷ []) ≡ xs
take-last [] y = refl
take-last (x ∷ xs) y = ap (◌∷◌ x) (take-last xs y)

swap_remove-last :
    {A : Type 0} (d : A) (xs : List A) (y : A) → swap_remove d (xs ++ y ∷ []) (length xs) ≡ xs
unfolding swap_remove
swap_remove-last d xs y =
    let last : length (xs ++ y ∷ []) - 1 ≡ length xs = omega (arith, length-append xs (y ∷ [])) in
    rw (last, get_or-last xs y d, set-last xs y y) (take-last xs y)

take_short : (n : ℕ) (xs : List ℕ) → length xs ≤ n → take n xs ≡ xs
take_short zero [] h = refl
take_short zero (x ∷ xs) h = absurd (omega arith)
take_short (suc n) [] h = refl
take_short (suc n) (x ∷ xs) h = ap (◌∷◌ x) (take_short n xs (omega arith))

-- A manager that can join the topic: it has room and a port, the channel can be made, its address and
-- its node identifier are new, and no bootstrap of this topic and time waits.
pub record CanJoin (m : Manager) (created : ℕ → Option Channel) (topic : List ℕ) (now : ℕ)
    (channel : Channel) : Type 0 where
  pub channel_room : length m.channels < max_channels
  pub pending_room : length m.pending < max_pending
  pub some_port : 0 < (allocate_port m).0
  pub made : created (allocate_port m).0 ≡ some channel
  pub short : length topic ≤ 63
  pub new_address : count (λ (c : Channel). c.address == channel.address) m.channels ≡ 0
  pub new_node : count (has_node_id channel.node_id) m.channels ≡ 0
  pub new_bootstrap : count (answers topic now) m.pending ≡ 0

allocate_port-lists :
    (m : Manager)
    → ((allocate_port m).1.channels ≡ m.channels) × ((allocate_port m).1.pending ≡ m.pending)
unfolding allocate_port
allocate_port-lists m = ground arith

module _ (m : Manager) (created : ℕ → Option Channel) (topic : List ℕ) (now : ℕ) (channel : Channel)
    (can : CanJoin m created topic now channel) where
  joined : Channel
  joined = record channel { state = State.bootstrapping }

  waiting : Pending
  waiting = record { topic_id = topic; timestamp_us = now; channel = channel.address; replies = [] }

  after_join : Manager
  after_join = record (allocate_port m).1 {
    channels = m.channels ++ joined ∷ [];
    pending = m.pending ++ waiting ∷ [];
  }

  join_channel-eq : join_channel m created topic now ≡ (some joined, after_join)
  unfolding join_channel after_join waiting joined
  join_channel-eq =
      let channels_left : leb max_channels (length m.channels) ≡ false =
        ground (arith, can.channel_room) in
      let pending_left : leb max_pending (length m.pending) ≡ false =
        ground (arith, can.pending_room) in
      let some_port : ((allocate_port m).0 == 0) ≡ false = ground (arith, can.some_port) in
      let (channels, pending) = allocate_port-lists m in
      rw
        (
          channels_left,
          pending_left,
          some_port,
          can.made,
          take_short 63 topic can.short,
          channels,
          pending,
        )
        refl

  running_channel : Channel
  running_channel = record channel { state = State.running }

  -- The manager after the first reply.
  after_reply : Manager
  after_reply = record (allocate_port m).1 {
    channels = m.channels ++ running_channel ∷ [];
    pending = m.pending;
  }

  -- The manager after the channel is destroyed: its bootstrap still waits.
  after_destroy : Manager
  after_destroy = record (allocate_port m).1 {
    channels = m.channels;
    pending = m.pending ++ waiting ∷ [];
  }

  destroy_channel-eq : destroy_channel after_join channel.node_id ≡ (true, after_destroy)
  unfolding destroy_channel after_join waiting joined after_destroy
  destroy_channel-eq =
      let same : has_node_id channel.node_id joined ≡ true = same_bytes_refl channel.node_id in
      rw
        (
          destroy_channel,
          find-last (has_node_id channel.node_id) m.channels joined can.new_node same,
          swap_remove-last no_channel m.channels joined,
        )
        refl

  module _ (responder : ℕ × ℕ) (seeds : List (ℕ × ℕ)) where
    reply-after_join :
        handle_bootstrap_reply after_join topic responder now seeds
        ≡ some (
          record { accepted = true; connect = some responder; seeds = take 16 seeds },
          after_reply,
        )
    unfolding handle_bootstrap_reply after_join waiting joined after_reply running_channel
    reply-after_join =
        let here : answers topic now waiting ≡ true = ground (arith, same_bytes_refl topic) in
        let at : (joined.address == channel.address) ≡ true = ground arith in
        rw
          (
            handle_bootstrap_reply,
            find-last (answers topic now) m.pending waiting can.new_bootstrap here,
            get_or-last m.pending waiting no_pending,
            find-last (λ (c : Channel). c.address == channel.address) m.channels joined
                can.new_address at,
            get_or-last m.channels joined no_channel,
            set-last m.channels joined running_channel,
            without-last m.pending waiting,
          )
          refl

    reply-after_reply :
        handle_bootstrap_reply after_reply topic responder now seeds
        ≡ some (record { accepted = false; connect = none; seeds = [] }, after_reply)
    unfolding handle_bootstrap_reply after_reply
    reply-after_reply =
        rw (handle_bootstrap_reply, find-absent (answers topic now) m.pending can.new_bootstrap)
          refl

    reply-after_destroy : handle_bootstrap_reply after_destroy topic responder now seeds ≡ none
    unfolding handle_bootstrap_reply after_destroy waiting
    reply-after_destroy =
        let here : answers topic now waiting ≡ true = ground (arith, same_bytes_refl topic) in
        rw
          (
            handle_bootstrap_reply,
            find-last (answers topic now) m.pending waiting can.new_bootstrap here,
            get_or-last m.pending waiting no_pending,
            find-absent (λ (c : Channel). c.address == channel.address) m.channels can.new_address,
          )
          refl

    -- Where a topic of at most 63 bytes can be joined, there is room and a port, the channel can
    -- be made, its address and its node identifier are new, and no bootstrap of this topic and
    -- time waits, then the first reply to the bootstrap is accepted, connects to its sender and
    -- adds at most 16 seeds, the channel runs, the bootstrap no longer waits, and a second reply
    -- is refused.
    pub reply-join :
        (m' : Manager) × (handle_bootstrap_reply
            (join_channel m created topic now).1
            topic
            responder
            now
            seeds
          ≡ some (record { accepted = true; connect = some responder; seeds = take 16 seeds }, m'))
        × (m'.channels ≡ m.channels ++ record channel { state = State.running } ∷ [])
        × (m'.pending ≡ m.pending)
        × (handle_bootstrap_reply m' topic responder now seeds
            ≡ some (record { accepted = false; connect = none; seeds = [] }, m'))
    unfolding after_reply running_channel
    reply-join = (
      after_reply,
      ap (λ (p : Option Channel × Manager). handle_bootstrap_reply p.1 topic responder now seeds)
            join_channel-eq
          ∙ reply-after_join,
      refl,
      refl,
      reply-after_reply,
    )

    -- Under the same conditions, where the channel is destroyed before the reply comes, the
    -- destruction succeeds, and the reply then writes to the destroyed channel.
    pub reply-destroy :
        ((destroy_channel (join_channel m created topic now).1 channel.node_id).0 ≡ true)
        × (handle_bootstrap_reply
              (destroy_channel (join_channel m created topic now).1 channel.node_id).1
              topic
              responder
              now
              seeds
            ≡ none)
    reply-destroy =
        let steps : destroy_channel (join_channel m created topic now).1 channel.node_id
            ≡ (true, after_destroy) =
          ap (λ (p : Option Channel × Manager). destroy_channel p.1 channel.node_id) join_channel-eq
          ∙ destroy_channel-eq in
        (
          ap (λ (p : Bool × Manager). p.0) steps,
          ap (λ (p : Bool × Manager). handle_bootstrap_reply p.1 topic responder now seeds) steps
              ∙ reply-after_destroy,
        )
