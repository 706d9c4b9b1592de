-- ===== src/Manager/Tests.antt =====
-- A manager with ports from 9000 to 9001, and a channel that is joined.
use poseidon.Prelude.{
  ℕ, ◌≡◌, refl, true, false, Option, none, some, List, [], ◌∷◌, arith, if◌then◌else◌, same_bytes,
}
use poseidon.Prelude.Entries.{find}
use poseidon.Manager.{
  Manager, Channel, State, Tombstone, TombstoneType, from_notice, add_tombstone, find_tombstone,
  allocate_port, join_channel, destroy_channel, handle_bootstrap_reply,
}
use poseidon.Manager.Tombstones.{newer, find_tombstone-add}
use poseidon.Manager.Bootstrap.{CanJoin, reply-join, reply-destroy}

abbrev fresh : Manager
fresh = record {
  channels = [];
  next_port = 9000;
  port_range_start = 9000;
  port_range_end = 9001;
  pending = [];
  tombstones = [];
  sessions = [];
}

abbrev topic : List ℕ
topic = 116 ∷ 111 ∷ []

abbrev deleted : Tombstone
unfolding from_notice
deleted = from_notice TombstoneType.deleted 5 record {
  topic_id = topic;
  node_id = 7 ∷ [];
  key_type = [];
  public_key = [];
  timestamp_us = 3;
  signature = [];
}

find_tombstone-add_example : find_tombstone (add_tombstone fresh deleted).1 topic ≡ (
    if same_bytes deleted.topic_id topic
    then some (newer (find_tombstone fresh topic) deleted)
    else find_tombstone fresh topic)
unfolding add_tombstone find
find_tombstone-add_example = find_tombstone-add fresh deleted topic refl

abbrev channel : Channel
channel = record { address = 4096; node_id = 7 ∷ 8 ∷ []; topic = topic; state = State.running }

abbrev created : ℕ → Option Channel
created port = some channel

fresh-CanJoin : CanJoin fresh created topic 100 channel
unfolding allocate_port
fresh-CanJoin = record {
  channel_room = omega arith;
  pending_room = omega arith;
  some_port = omega arith;
  made = refl;
  short = omega arith;
  new_address = refl;
  new_node = refl;
  new_bootstrap = refl;
}

reply-join_example :
    (m' : Manager) × (handle_bootstrap_reply
        (join_channel fresh created topic 100).1
        topic
        (1, 2)
        100
        ((3, 4) ∷ [])
      ≡ some (record { accepted = true; connect = some (1, 2); seeds = (3, 4) ∷ [] }, m'))
    × (m'.channels ≡ record channel { state = State.running } ∷ [])
    × (m'.pending ≡ [])
    × (handle_bootstrap_reply m' topic (1, 2) 100 ((3, 4) ∷ [])
        ≡ some (record { accepted = false; connect = none; seeds = [] }, m'))
reply-join_example = reply-join fresh created topic 100 channel fresh-CanJoin (1, 2) ((3, 4) ∷ [])

reply-destroy_example :
    ((destroy_channel (join_channel fresh created topic 100).1 (7 ∷ 8 ∷ [])).0 ≡ true)
    × (handle_bootstrap_reply
          (destroy_channel (join_channel fresh created topic 100).1 (7 ∷ 8 ∷ [])).1
          topic
          (1, 2)
          100
          []
        ≡ none)
reply-destroy_example = reply-destroy fresh created topic 100 channel fresh-CanJoin (1, 2) []
