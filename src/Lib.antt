-- ===== src/Lib.antt =====
-- GoBlob is a distributed blob store. This library models the parts that decide what is stored and
-- agreed on, and proves what makes them correct.
--
-- Parts, and the files that model them:
--   * Types (goblob/core/types/types.go): offsets, file ids, replica placements, TTLs. Strconv and
--     Bytes model the calls of strconv, fmt and encoding/binary that they and the formats make.
--   * Needle (goblob/storage/needle/needle.go, crc32.go): the needle, its flags, setters, getters and
--     checksum. Needle/Write is needle_write.go (buildBodyBytes as writes into a buffer of the computed
--     size, bodyBytes by appending, WriteTo over any io.Writer); Needle/Read is needle_read.go (ReadFrom
--     with one error value for each message and `panic` for a slice out of range, IsExpired);
--     Needle/Compare is Equals and Clone. Layout, Fields, Body, Image, RoundTrip and Corrupt are proofs.
--   * NeedleMap (goblob/storage/volume/needle_map.go): MemDb, its statistics and its index file as a
--     list of bytes; `Call`, `step` and `run` are sequences of its methods. Assoc, Stats, Replay,
--     Durable and Reads are proofs.
--   * SuperBlock (goblob/storage/volume/superblock.go): the header of a data file.
--   * Lru (goblob/cache/lru.go): the cache of payloads, its list front first.
--   * Raft (goblob/consensus/native): the state of one node and the helpers under its lock are in
--     Raft, the messages of network.go in Raft/Messages, elections and votes in Raft/Vote,
--     handleAppendEntries and handleInstallSnapshot in Raft/Append, replicateTo, advanceCommitLocked and
--     Apply in Raft/Leader. Effects, Ballot, Chain, Take, Follow, Match, Commit, Applied and Regress are
--     proofs.
--   * Volume (goblob/storage/volume/volume.go): one data file and its index; `Request`, `serve_all` and
--     `assign_all` are sequences of WriteNeedle and DeleteNeedle calls. Reads, Steps, Refine and Reopen
--     are proofs. Volume/Compact is compact.go (Compact, CommitCompact and CompactVolume), with the
--     proofs Kept, Copied, Copy and Commit below it.
--   * Sequence (goblob/sequence): the sequencers of the needle ids, with the part of goblob/raft/fsm.go
--     and goblob/server/master_server.go that a RaftSequencer meets. Text, Issue, Replicated and Clock
--     are proofs; Strconv models the text of the numbers here too.
--   * LogBuffer (goblob/log_buffer/log_buffer.go): the ring of segments; `append_all` and `log_run`
--     are sequences of its calls, the second with flushOldSegments among them. Ring, Frames, Slots,
--     Stream, Delivery, Marks, Daemon and Bounds are proofs.
--   * Lock (goblob/filer/lock_manager.go): the named locks over a key-value store; `lock_run` is a
--     sequence of TryLock and Unlock calls. Frame, Refuse and Lease are proofs.
--   * Quota (goblob/quota/quota.go): the quotas over the same key-value store; `quota_run` is a sequence of
--     its calls. Usage is proofs.
--   * Layout (goblob/topology/volume_layout.go, goblob/util/concurrent_read_map.go): the maps of a
--     VolumeLayout; `layout_run` is a sequence of its calls. Map, Hosts, Moved, Once, Remove, Numbered
--     and Pick are proofs.
--   * Growth (goblob/topology/volume_growth.go): selectNodesForReplica, its loops one by one. Sound and
--     Select are proofs.
--   * Base holds the shared names, the Boolean tests, lists over native numbers and finite tables.
-- How the parts meet: a volume writes needle records behind a superblock and keeps their places in a
-- needle map; the ids of the needles come from a sequencer; a superblock and a needle hold placements
-- and TTLs of the types. The growth of volumes chooses data nodes, and a layout keeps which of them
-- have a volume. The locks, the quotas and the log buffer belong to the filer. The native Raft engine
-- is a component of its own, whose state machine is a parameter.
--
-- Representation: integers are native naturals with the wrap-around of uint32 and uint64 written out;
-- byte slices and strings are lists of bytes, a nil slice is the empty list; a Go map is an
-- association list or a function; a pointer that may be nil is an Option.
-- Bounds and fuel: format_dec takes as many digits as the type of its argument can have; load_loop takes
-- the number of bytes as fuel, and each round but the last takes sixteen of them; evict takes the
-- number of entries, of which each round removes one; apply_rounds takes
-- the distance of the two indices that its loop compares, each round raises one of them, and the test
-- is made in every round; advance_rounds takes the distance that its loop runs down; parse_frames takes the
-- number of bytes, and each round takes four of them; read_loop takes the number of slots.
-- Outside the repository, and parameters here: the io.Writer of WriteTo and of the data file of a
-- volume, the state machine of the engine, the readings of the clocks of a SnowflakeSequencer, a
-- compaction and a lock, the JSON codecs and the key-value store of the locks and the quotas, and
-- TrimSpace. The order in which a compaction walks its map, its test of the garbage level, which
-- is on floats, and how its file calls and renames go are parameters too, as is the heartbeat test of
-- a node.
-- The files of the index take a write whole or not at all. A method of the engine that gives up its
-- lock around a call of the transport is one step before the call and one after it, and the second
-- takes any state; clocks and timers are left out, so a step is not tied to the time at which it runs.
-- A goroutine that rotate starts for a segment is that segment as a result of AppendEntry: it runs at
-- a later time, in no order with the others; flushOldSegments is one step with its calls of the flush
-- function.
-- Node ids are numbers, 0 for the empty id.
-- Not modelled: CreateVolumeIndex and RebuildIndex, the directories of volumes, ServerAddress, the
-- tree of the topology and its reservations of slots, the filer and the front ends,
-- the file store and the TCP transport of the engine, the
-- membership changes of the engine, and the code generated from the protocol files.
pub mod Base
pub mod Bytes
pub mod Strconv
pub mod Types
pub mod Needle
pub mod NeedleMap
pub mod SuperBlock
pub mod Lru
pub mod Volume
pub mod Sequence
pub mod LogBuffer
pub mod Lock
pub mod Quota
pub mod Layout
pub mod Growth
pub mod Raft
