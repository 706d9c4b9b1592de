-- ===== src/Manager.antt =====
-- src/Channel/channel_manager.c: the channels of a node, their ports, the bootstraps that wait for a
-- reply, the tombstones of deleted and modified channels, and the sessions. A channel is known by its
-- address, a number; a topic is the list of its bytes. What poseidon_channel_create gives on a port,
-- with the key pair for it, is an argument: a channel, or `none` where one of the two fails.
pub mod Ports
pub mod Tombstones
pub mod Bootstrap
mod Tests
use poseidon.Prelude.{
  ℕ, zero, suc, ◌+◌, ◌-◌, ◌*◌, ◌/◌, ◌%◌, ◌^◌, ◌≤◌, ◌<◌, ◌≡◌, refl, sym, ap, ◌∙◌, ◌↔◌, ◌⊎◌, inl, inr,
  Bool, true, false, not, ◌&&◌, ◌||◌, Option, none, some, List, [], ◌∷◌, ◌++◌, map, arith, ltb, leb,
  ◌==◌, if◌then◌else◌, ltb→lt, lt→ltb, leb→le, ==_iff, Bool-cases, Option-cases, List-cases,
  if_intro, eq_of_implications, same_bytes, same_bytes_iff, same_bytes_refl, ◌>>=◌, length, get_or,
  get_elem?, set, take, drop, reverse, replicate, length-append, length-replicate, length-set,
  length-take, length-drop, length-map, length-reverse, append_assoc, append-nil, reverse-append,
  reverse-reverse, get_or-append, get_or-set, get_or-take, get_or_ext, tests,
}
use poseidon.Prelude.Entries.{find, filter, swap_remove}

-- POSEIDON_CHANNEL_MANAGER_MAX_CHANNELS, POSEIDON_SESSION_REGISTRY_MAX,
-- POSEIDON_MAX_PENDING_BOOTSTRAPS and POSEIDON_TOMBSTONE_MAX
abbrev pub max_channels : ℕ
max_channels = 32

abbrev pub max_sessions : ℕ
max_sessions = 256

abbrev pub max_pending : ℕ
max_pending = 16

abbrev pub max_tombstones : ℕ
max_tombstones = 64

-- POSEIDON_TOMBSTONE_DEFAULT_TTL_SECONDS
abbrev pub ttl_seconds : ℕ
ttl_seconds = 90 * 24 * 3600

-- The states of a channel that the manager sets.
pub data State : Type 0 where
  bootstrapping running : State

-- What the manager reads and writes of a channel.
pub record Channel : Type 0 where
  pub address : ℕ
  pub node_id : List ℕ
  pub topic : List ℕ
  pub state : State

-- `poseidon_tombstone_type_t`
pub data TombstoneType : Type 0 where
  deleted modified : TombstoneType

-- `poseidon_tombstone_t`, less the configuration.
pub record Tombstone : Type 0 where
  pub tombstone_type : TombstoneType
  pub topic_id : List ℕ
  pub node_id : List ℕ
  pub key_type : List ℕ
  pub public_key : List ℕ
  pub timestamp_us : ℕ
  pub expires_at_us : ℕ
  pub signature : List ℕ

-- `pending_bootstrap_t`, with the address of its channel. The replies are its `reply_addrs` and
-- `reply_ports`.
pub record Pending : Type 0 where
  pub topic_id : List ℕ
  pub timestamp_us : ℕ
  pub channel : ℕ
  pub replies : List (ℕ × ℕ)

-- `poseidon_channel_manager_t`; the counts are the lengths of the lists.
pub record Manager : Type 0 where
  pub channels : List Channel
  pub next_port : ℕ
  pub port_range_start : ℕ
  pub port_range_end : ℕ
  pub pending : List Pending
  pub tombstones : List Tombstone
  pub sessions : List ℕ

-- poseidon_channel_manager_create, where the dial channel could be made.
unfoldable pub create : ℕ → ℕ → Option Manager
create port_range_start port_range_end =
    if leb port_range_end port_range_start
    then none
    else some record {
      channels = [];
      next_port = port_range_start;
      port_range_start = port_range_start;
      port_range_end = port_range_end;
      pending = [];
      tombstones = [];
      sessions = [];
    }

-- allocate_port, on ports of 16 bits: the port, 0 where there is none.
unfoldable pub allocate_port : Manager → ℕ × Manager
allocate_port m =
    if ltb m.port_range_end m.next_port
    then (0, m)
    else (m.next_port, record m { next_port = (m.next_port + 1) % 2 ^ 16 })

-- poseidon_channel_manager_create_channel
unfoldable pub create_channel : Manager → (ℕ → Option Channel) → Option Channel × Manager
create_channel m created =
    if leb max_channels (length m.channels)
    then (none, m)
    else let (port, m') = allocate_port m in
      if port == 0 then (none, m') else elim (created port) [
        | none ↦ (none, m')
        | some channel ↦ (some channel, record m' { channels = m'.channels ++ channel ∷ [] })
      ]

-- poseidon_channel_manager_join_channel up to the point where it unlocks, at the time `now`.
unfoldable pub join_channel : Manager → (ℕ → Option Channel) → List ℕ → ℕ → Option Channel × Manager
join_channel m created topic now =
    if leb max_channels (length m.channels)
    then (none, m)
    else if leb max_pending (length m.pending)
    then (none, m)
    else let (port, m') = allocate_port m in
      if port == 0 then (none, m') else elim (created port) [
        | none ↦ (none, m')
        | some channel ↦
            let joined = record channel { state = State.bootstrapping } in
            let entry : Pending = record {
              topic_id = take 63 topic;
              timestamp_us = now;
              channel = channel.address;
              replies = [];
            } in
            (
              some joined,
              record m' {
                channels = m'.channels ++ joined ∷ [];
                pending = m'.pending ++ entry ∷ [];
              },
            )
      ]

abbrev pub no_channel : Channel
no_channel = record { address = 0; node_id = []; topic = []; state = State.running }

abbrev pub has_node_id : List ℕ → Channel → Bool
has_node_id node_id channel = same_bytes channel.node_id node_id

-- poseidon_channel_manager_find_channel
unfoldable pub find_channel : Manager → List ℕ → Option Channel
find_channel m node_id = find (has_node_id node_id) m.channels >>= λ i. get_elem? m.channels i

-- poseidon_channel_manager_destroy_channel: whether it returns 0, and the manager.
unfoldable pub destroy_channel : Manager → List ℕ → Bool × Manager
destroy_channel m node_id = elim (find (has_node_id node_id) m.channels) [
  | none ↦ (false, m)
  | some i ↦ (true, record m { channels = swap_remove no_channel m.channels i })
]

-- The search of a reply for its bootstrap.
abbrev pub answers : List ℕ → ℕ → Pending → Bool
answers topic timestamp_us p = same_bytes p.topic_id topic && p.timestamp_us == timestamp_us

-- A write through the address of a channel; `none` stands for a channel that is no more.
abbrev pub set_running : List Channel → ℕ → Option (List Channel)
set_running channels address = find (λ (c : Channel). c.address == address) channels >>= λ i.
    some (set channels i (record (get_or channels i no_channel) { state = State.running }))

abbrev pub no_pending : Pending
no_pending = record { topic_id = []; timestamp_us = 0; channel = 0; replies = [] }

-- The result of poseidon_channel_manager_handle_bootstrap_reply: -1, or 0 with the calls that it makes
-- on the protocol of the channel: the peer to connect to, and the seeds.
pub record Reply : Type 0 where
  pub accepted : Bool
  pub connect : Option (ℕ × ℕ)
  pub seeds : List (ℕ × ℕ)

-- poseidon_channel_manager_handle_bootstrap_reply. An entry has no replies when it is found, since
-- the first one removes it; the code's test for that stays.
unfoldable pub handle_bootstrap_reply :
    Manager → List ℕ → ℕ × ℕ → ℕ → List (ℕ × ℕ) → Option (Reply × Manager)
handle_bootstrap_reply m topic responder timestamp_us seeds =
    elim (find (answers topic timestamp_us) m.pending) [
      | none ↦ some (record { accepted = false; connect = none; seeds = [] }, m)
      | some i ↦
          let entry = get_or m.pending i no_pending in
          let replies =
            if ltb (length entry.replies) 16
            then entry.replies ++ responder ∷ []
            else entry.replies in
          if length replies == 1
          then (set_running m.channels entry.channel >>= λ channels. some (
            record { accepted = true; connect = some responder; seeds = take 16 seeds },
            record m { channels = channels; pending = take i m.pending ++ drop (suc i) m.pending },
          ))
          else some (
            record { accepted = true; connect = none; seeds = [] },
            record m { pending = set m.pending i (record entry { replies = replies }) },
          )
    ]

abbrev pub has_topic : List ℕ → Tombstone → Bool
has_topic topic t = same_bytes t.topic_id topic

abbrev pub no_tombstone : Tombstone
no_tombstone = record {
  tombstone_type = TombstoneType.deleted;
  topic_id = [];
  node_id = [];
  key_type = [];
  public_key = [];
  timestamp_us = 0;
  expires_at_us = 0;
  signature = [];
}

-- poseidon_channel_manager_add_tombstone
unfoldable pub add_tombstone : Manager → Tombstone → Bool × Manager
add_tombstone m t = elim (find (has_topic t.topic_id) m.tombstones) [
  | some i ↦
      if ltb (get_or m.tombstones i no_tombstone).timestamp_us t.timestamp_us
      then (true, record m { tombstones = set m.tombstones i t })
      else (true, m)
  | none ↦
      if leb max_tombstones (length m.tombstones)
      then (false, m)
      else (true, record m { tombstones = m.tombstones ++ t ∷ [] })
]

-- poseidon_channel_manager_find_tombstone
unfoldable pub find_tombstone : Manager → List ℕ → Option Tombstone
find_tombstone m topic = find (has_topic topic) m.tombstones >>= λ i. get_elem? m.tombstones i

-- poseidon_channel_manager_expire_tombstones, at the time `now`: the others move to the front.
unfoldable pub expire_tombstones : ℕ → Manager → Manager
expire_tombstones now m = record m {
  tombstones = filter (λ (t : Tombstone). ltb now t.expires_at_us) m.tombstones;
}

-- The fields that the delete and the modify notice share.
pub record Notice : Type 0 where
  pub topic_id : List ℕ
  pub node_id : List ℕ
  pub key_type : List ℕ
  pub public_key : List ℕ
  pub timestamp_us : ℕ
  pub signature : List ℕ

-- poseidon_tombstone_from_delete_notice and poseidon_tombstone_from_modify_notice, at the time `now`;
-- a key or a signature that does not fit is left empty.
unfoldable pub from_notice : TombstoneType → ℕ → Notice → Tombstone
from_notice tombstone_type now notice = record {
  tombstone_type = tombstone_type;
  topic_id = take 63 notice.topic_id;
  node_id = take 63 notice.node_id;
  key_type = take 15 notice.key_type;
  public_key = if leb (length notice.public_key) 64 then notice.public_key else [];
  timestamp_us = notice.timestamp_us;
  expires_at_us = (now + ttl_seconds * 1000000) % 2 ^ 64;
  signature = if leb (length notice.signature) 64 then notice.signature else [];
}

-- What poseidon_channel_manager_handle_bootstrap_request does: it publishes the notice of a tombstone,
-- or a reply where the node is a member of the channel, or refuses.
pub data Answer : Type 0 where
  send_notice : Tombstone → Answer
  send_reply : Answer
  refuse : Answer

abbrev pub is_member : Manager → List ℕ → Bool
is_member m topic = elim (find (λ (c : Channel). same_bytes c.topic topic) m.channels) [
  | some i ↦ true
  | none ↦ false
]

unfoldable pub handle_bootstrap_request : Manager → List ℕ → Answer
handle_bootstrap_request m topic = elim (find_tombstone m topic) [
  | some t ↦ Answer.send_notice t
  | none ↦ if is_member m topic then Answer.send_reply else Answer.refuse
]

-- poseidon_channel_manager_register_session
unfoldable pub register_session : Manager → ℕ → Bool × Manager
register_session m session =
    if leb max_sessions (length m.sessions)
    then (false, m)
    else (true, record m { sessions = m.sessions ++ session ∷ [] })

-- poseidon_channel_manager_unregister_session
unfoldable pub unregister_session : Manager → ℕ → Bool × Manager
unregister_session m session = elim (find (λ s. s == session) m.sessions) [
  | none ↦ (false, m)
  | some i ↦ (true, record m { sessions = swap_remove 0 m.sessions i })
]

-- poseidon_channel_manager_handle_delete_notice: the tombstone, and the channel of the topic, which is
-- destroyed by its node identifier.
unfoldable pub handle_delete_notice : Manager → ℕ → Notice → Manager
handle_delete_notice m now notice =
    let m' = (add_tombstone m (from_notice TombstoneType.deleted now notice)).1 in
    elim (find (λ (c : Channel). same_bytes c.topic notice.topic_id) m'.channels) [
      | none ↦ m'
      | some i ↦ (destroy_channel m' (get_or m'.channels i no_channel).node_id).1
    ]
