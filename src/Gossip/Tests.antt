-- ===== src/Gossip/Tests.antt =====
-- A scheduler with two rounds at the start, and an exchange with one target.
use poseidon.Prelude.{ℕ, ◌≡◌, refl, true, ◌++◌, List, [], ◌∷◌, some, arith, get_elem?}
use poseidon.Prelude.Outcome.{overrun}
use poseidon.Cbor.{bits8, push_all}
use poseidon.Cbor.Tree
use poseidon.Cbor.Tree.{Item, tree, tree_laws, packed}
use poseidon.Packet
use poseidon.Packet.{
  Target, base_items, target_items, magic_number, join_id, encode_gossip, push_arrays,
}
use poseidon.Gossip.{create, ticks}
use poseidon.Gossip.Rate.{Counts, ticks-create-Counts}
use poseidon.Gossip.Exchange
use poseidon.Gossip.Exchange.{Handle, send_gossip, on_packet}
use poseidon.Gossip.Exchange.Sent.{on_packet-sent}

abbrev times : List ℕ
times = 1000000 ∷ 1500000 ∷ 2000000 ∷ 7000000 ∷ []

ticks-create-Counts_example :
    Counts 2 1 5 0 (ticks times (create 0 1 2 5)).0 (ticks times (create 0 1 2 5)).1
ticks-create-Counts_example = ticks-create-Counts 0 1 2 5 times (omega arith)

three_test : (ticks times (create 0 1 2 5)).0 ≡ 3
unfolding create ticks poseidon.Gossip.tick poseidon.Gossip.advance
three_test = refl

abbrev handle : Handle
handle = record { active_gossips = []; timeout_ms = 5000; listens = true }

abbrev target : Target
target = record { addr = 1; port = 2; rendv_addr = 3; rendv_port = 4 }

abbrev sent : Item
sent = packed (
    base_items tree (record {
      packet_type = 10;
      query_id = 4294971392;
      magic = magic_number;
      rendv_addr = 3;
      rendv_port = 4;
    })
    ++ Tree.uint bits8 1 ∷ packed (target_items tree target) ∷ [])

sent_test : get_elem? (send_gossip tree 0 0 handle ((4096, target) ∷ [])).0 0 ≡ some (sent, target)
unfolding send_gossip Exchange.build_packet Exchange.create Exchange.query_id_of join_id
    encode_gossip push_arrays push_all Packet.create
sent_test = refl

on_packet-sent_example : on_packet tree handle sent ≡ overrun
on_packet-sent_example =
    on_packet-sent tree tree_laws 0 0 handle handle ((4096, target) ∷ []) 0 sent target
      (omega arith, omega arith, refl) sent_test
