-- ===== src/Lib.antt =====
-- GridKV: a verification library beside the Go code of a distributed in-memory key-value store.
--
-- A node keeps its part of the data in a sharded store (internal/mem_storage), finds the nodes of
-- a key on a consistent hash ring, and learns of the other nodes by a failure detector
-- (internal/cluster/hashring.go and member.go). Writes carry versions from a hybrid logical clock
-- (internal/utils/hlc/hlc.go), and what a shard has changed waits in a buffer from which it is sent
-- to the replicas in the format of internal/cluster/codec.go. The writer and the reader
-- (internal/cluster/writer.go and reader.go) stand on these parts and on a cache
-- (internal/utils/cache); anti-entropy, checkpoints and hinted handoff (internal/cluster/entropy.go)
-- bring back what was missed, and operations travel by gossip (internal/cluster/gossip.go).
--
-- The modules:
--
-- - Base: Booleans, lists, byte strings, 64-bit words, maps, UTF-8.
-- - Member: internal/cluster/member.go and types.go. Member.State has `memberMgr` with the writes
--   to its table (updateNode, markSuspect, markDead, updateLastActive), Member.Handlers the
--   handlers of HandleMessage, Member.Ping doPing with tryIndirectProbe, Member.Run newMemberMgr,
--   Start, Join, Leave and the events. A run is a list of events: a message that arrives, a ping
--   round, a scheduled suspect timeout, a departure, each with the time that the clock shows, and
--   each one step, so that an interleaving of goroutines is an order of steps. What `sendFunc`
--   answers is a function of all that was sent. Member.Induction lifts a property of the writes to
--   runs, and Growth, Tables, Convergence, Detection, Silence and Relay use it.
-- - Ring: internal/cluster/hashring.go, over a hash that is a parameter (xxh3). Search and Scan
--   are about Get, Build, Update and Disruption about Update, Replicas and GetN about GetN. The
--   rounds of `sort.Search` are bounded by the length, which is enough.
-- - Hlc: internal/utils/hlc/hlc.go, and hlcToInt64 of internal/cluster/writer.go (Hlc.Version).
-- - Compress: internal/utils/compress/compress.go, over LZ4 as a record of operations with one law.
-- - Storage: internal/mem_storage. Item and Conflict are stored_item.go; Buffer, Queue and
--   Recent the ring of operations of a shard (addToSyncBuffer, GetSyncBuffer); Shard, Evict, Store
--   and Batch are mem_storage.go: counters, LRU lists and New, then evictBatchLRU, checkAndEvict
--   and runAsyncEviction, then Set (set_item), Get (get_item) and Delete (delete_item), then the
--   operations on many keys. Lookup, Reads and Answers say what a client sees, Count and Served
--   what the counters of keys hold, Rounds is about the fuel of an eviction. Each
--   operation is one step, so that the retries of a compare-and-swap do not appear. Eviction
--   rounds run on fuel: as many as evictions are allowed, since a round without one ends the loop.
-- - Codec: internal/cluster/codec.go. Wire has the primitives, Messages, RoundTrip and
--   SyncMessage the member messages, Echo the answer to a ping on the wire, SyncOps and SyncTrip
--   the operations for the replicas.
-- - Cache: internal/utils/cache. Sketch and Aging are tinylfu.go, Defs the cache of ttl_cache.go;
--   Eviction, Coherence, Steps and History lead from one call to any history of calls. The map and
--   the linked list of a shard are one list from the head on.
-- - Node: what the reader and the writer of a node share, with the third-party functions below them
--   (xxh3, fnv, LZ4) as one record.
-- - Writer: internal/cluster/writer.go. Defs has Set (write_key), Delete (delete_key), BatchSet
--   (batch_write), storeOrQueue and triggerBatch, Flush has flushInternal; Delivery is about the
--   flush, Versions about the version numbers, Writes and Cases about the outcomes of a write. A
--   flush that is asked for is a step of its own. `Range` over the map of versions visits it in an
--   order that is a parameter, `shuffle`.
-- - Reader: internal/cluster/reader.go. Defs has Get (read) and BatchGet (batch_read), Replicas has
--   GetSpeculative (read_speculative) and GetWithConsistency (read_consistent), Limiter the rate
--   limiter, Repair the read repair. `getFunc` is a function of a node and a key, and the order in
--   which the answers arrive is a parameter, `arrive`. Sources, Refill, Best and Consistency are
--   about the reads, AfterWrite about the writer and the reader together.
-- - Replay: the second half of internal/cluster/entropy.go. Checkpoint has SaveCheckpoint,
--   LoadCheckpoint and Start, Handoff the hinted handoff, whose ten attempts meet a world that is
--   an argument: the members, whether the push succeeds, what is queued meanwhile.
-- - Entropy: the first half of internal/cluster/entropy.go, Digest the digests and the round,
--   Compare what Sync reports.
-- - Gossip: internal/cluster/gossip.go. Defs has applyOps, HandleMessage and Pull, Rounds doGossip
--   and pushToTarget with its fifteen attempts, whose members and answers are an argument. Apply and
--   Replication are about what a receiver does with a push, Once about a round, Pushes about the
--   attempts. Storage.Drained is what Once needs of the store.
-- - Cluster: internal/cluster/cluster.go, of which Remote has createGetFunc and the handlers of the
--   read requests, and RemoteTrip a read at another node from the request to the answer.
-- - Lifecycle: internal/utils/lifecycle/lifecycle.go. Defs has Register, resolveOrder, Start and
--   Close, Order and Fuel what resolveOrder finds. Its depth-first search runs on fuel, one more than
--   there are components, which is enough, since a path repeats no name.
-- - Tests: runs on concrete inputs.
--
-- An `int64` is its 64-bit pattern, a number below 2^64, compared by `slt` and added by `add64`,
-- with wrap-around. A string is its list of bytes. A time is in nanoseconds since Go's zero time. A
-- `sync.Map` or `map` is an association list; the order of `Range` is that of the list.
--
-- Not modelled: sockets, goroutines, time limits, pooled buffers and log lines; the
-- construction of a cluster; the network; the executors of internal/utils; the public
-- API with its options. The executor takes every task.
mod Base
pub mod Member
pub mod Ring
pub mod Hlc
pub mod Lifecycle
pub mod Compress
pub mod Storage
pub mod Codec
pub mod Cache
pub mod Node
pub mod Reader
pub mod Writer
pub mod Replay
pub mod Entropy
pub mod Gossip
pub mod Cluster
mod Tests
