-- ===== src/Lib.antt =====
-- Poseidon: topic routing and its data structures.
--
-- Poseidon is a publish-subscribe network. A node keeps its peers in latency rings (Meridian) and
-- routes messages by topic (Quasar): it summarises its subscriptions in an attenuated Bloom filter,
-- gossips the filter to its neighbors, and sends a message along the neighbor whose filter knows the
-- topic, or on a random walk where none does. A channel adds subtopics and aliases for topics.
--
-- The parts, from the bottom up, with the code each models:
-- - Bitset: src/Bloom/bitset.c, a bit set over bytes that grows on demand. `put` is bitset_set.
-- - Probes: the loop over hash indices that the two filters share.
-- - Bloom: src/Bloom/bloom_filter.c, the filters of identifiers seen and of nodes visited.
-- - Buckets, Elastic: src/Bloom/elastic_bloom_filter.c, a filter with a bucket of fingerprints for
--   each bit, that doubles with its load and halves again. `record_item` and `erase_item` are add and
--   remove up to the point where they unlock and resize.
-- - Attenuated: src/Bloom/attenuated_bloom_filter.c, a stack of elastic filters, by distance.
-- - Quasar: src/Network/Quasar/quasar.c, on Bloom, Elastic and Attenuated. A handler takes the state
--   and returns the state and its effects: deliveries and packets. Quasar.Publish is quasar_publish.
-- - Ring: src/Network/Meridian/meridian_ring.c, with the node tests of meridian.c and
--   src/Crypto/node_id.c.
-- - Query: src/Network/Meridian/meridian_query.c, with its clock as an argument.
-- - Latency: the cache of measured latencies in src/Network/Meridian/meridian_measure.c.
-- - Subtopic, TopicAlias: src/Channel/subtopic.c and topic_alias.c.
-- - Manager: src/Channel/channel_manager.c. A channel is known by its address, so that an entry can
--   point to a channel that was destroyed.
-- - Buffer: src/Buffer/buffer.c.
-- - Ids: src/Network/Quasar/quasar_message_id.c, and src/Workers/transaction_id.c, which has the same
--   fields, order and format.
-- - Base58: src/Util/base58.c, encoding and decoding over big integers.
-- - Wire: src/Network/Quasar/quasar_route.c, routed messages as bytes.
-- - Cbor: the functions of libcbor that the packets use, as an interface with laws, and trees that keep
--   them. Packet: src/Network/Meridian/meridian_packet.c over this interface.
-- - Gossip: src/Network/Meridian/meridian_gossip.c, its scheduler, and its exchanges over Packet.
-- - WorkQueue: src/Workers/queue.c, the queues of the shards on a heap of items with two
--   links.
-- - Refcount: src/RefCounter/refcounter.c, as a step relation of threads that share a counter.
-- - Wheel: src/Time/wheel.c, the timing wheels. A tick of a wheel is one step of the five wheels.
-- - Prelude: lists by native indices, Boolean tests, bits, and tables searched from the front.
-- Each part has its definitions in the file of its name and its theorems in the files below it.
--
-- Conventions. A C integer is a natural number, with `% 2 ^ 64` where the code can wrap. A string is
-- the list of its bytes before the terminator. Arguments are not NULL, and allocations succeed: the
-- early returns for these have no counterpart. An operation holds its lock from start to end; add and
-- remove of the elastic filter unlock before they resize, and here no other operation comes between.
-- While a Quasar handler calls `on_message` it has unlocked, and here the callback does not call back.
-- `none` stands for an error return, or for an access that the code does not guard: to the level 0 of
-- a filter without levels, past the end of an array, or through the pointer to a freed object. The
-- decoders of Wire and Packet tell the two apart, as `refused` and `overrun` of Prelude.Outcome. A
-- Bloom filter of size 0 divides by zero in the code where it has rounds; what the definitions give
-- for it, `x % 0`, means nothing. The position on a wheel plus a delay is taken to fit 64 bits.
--
-- Parameters. libcbor is the record Cbor, with its documented behaviour in the record CborLaws.
-- XXH3_64bits_withSeed is a function of the bytes and the seed, of which nothing is assumed; so are the
-- operations on `float` (the record Floats) and `floor(log(l) / log(b))`, which Ring takes as a
-- function to the integers. Quasar takes the local node and the connected peers as an argument. Rings
-- have sizes below 2 ^ 31. Query, Latency, Gossip and Manager take the readings of the clock, Manager
-- what the creation of a channel gives, and WorkQueue the address of each new item.
--
-- Loops are recursions on the list or on the number of rounds. Two need fuel: the one that appends a
-- carry in Base58 takes four rounds, after which a carry of 32 bits is 0, and the one that extracts
-- digits has the size of its buffer, 200.
--
-- Not modelled: CBOR encoding and decoding of filters and of the remaining packets, the sockets of
-- Meridian and of the relay, the propagation of filters, the channels themselves, keys and hashes, the
-- ticker's sleep and the debouncer, the worker pool and its locks, memory pools, client APIs and the
-- daemon.
pub mod Prelude
pub mod Bitset
pub mod Probes
pub mod Bloom
pub mod Buckets
pub mod Elastic
pub mod Attenuated
pub mod Subtopic
pub mod TopicAlias
pub mod Buffer
pub mod Ring
pub mod Query
pub mod Quasar
pub mod Cbor
pub mod Packet
pub mod Wire
pub mod Refcount
pub mod Gossip
pub mod WorkQueue
pub mod Wheel
pub mod Manager
pub mod Ids
pub mod Latency
pub mod Base58
