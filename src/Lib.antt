-- ===== src/Lib.antt =====
-- lsmdb: a replicated key-value database. A cluster node (cluster, cmd/lsmdb-node) runs a Raft
-- core (internal/raft), drives it with ticks and messages (internal/raftnode), writes its durable
-- state to a store (internal/raftstore), and applies committed commands to a log-structured
-- database (db), whose writes go to a write-ahead log (internal/wal), a table in memory
-- (internal/memtable) and sorted files (internal/sstable).
--
-- Modelled are the Raft core, what its store keeps, and the database with its log, its table in
-- memory, its sorted files, their compaction and its manifest, and the state machine over it.
--
-- - Raft: internal/raft. Types and Config.validate of types.go are in Raft.Types; membership.go,
--   with applyMembership and equalVoters of node.go, is Raft.Membership, and Raft.Changes is about
--   its entries in a log. The `Node` of node.go is the record Raft.Node.Node, where its log
--   queries are too. Raft.Replicate has appendMessage, broadcastAppend and maybeCommit;
--   Raft.Election the campaigns and votes; Raft.Append handleAppend and its response;
--   Raft.Snapshots the snapshots and Compact; Raft.Driver `Tick` and `Step`; Raft.Create `New`;
--   Raft.Propose the proposals, ReadProbe and Status. A call is a function from a node to the node
--   after it and the `Update` (or an error, which may come with a changed node, as in the source).
--   Go's maps are functions with the zero value for a missing key. A loop of a handler is a
--   function of its own, such as `splice` for the loop of handleAppend over the entries.
-- - Raft.Frame, Raft.Emits and Raft.Rises are about what a call leaves alone, what it writes, and
--   what only goes up.
-- - Store: internal/raftstore/store.go, the hard state, the snapshot's metadata and the entries,
--   as `Persist` changes them; an error comes with the store as the part before it left it.
--   Store.Appends to Store.Stepped set it against the node.
-- - Wal: internal/wal/wal.go, with the file as its bytes: Append, ReadAll and Reset.
-- - Memtable: internal/memtable/memtable.go. The map is an association list.
-- - Bloom: internal/bloom/bloom.go. Sstable: internal/sstable, format.go and writer.go, and
--   Sstable.Reader reader.go, on the bytes of a file. Compact: internal/compact/compactor.go; the
--   heap is the list of its entries. Manifest: internal/manifest/manifest.go, with the state in
--   place of its JSON.
-- - Db: db/db.go and db/options.go, on a directory that is a list of named files. Db.Files has the
--   files, Db.Engine the state, Get, flush and compact, Db.Calls the calls, Db.Replaced
--   ReplaceReplicaState, Db.Opening Open. A call is a function to the database after it and the
--   error, if there is one. The state of a database is set against lists of records, newest first
--   (Db.Lookups, Db.Kept); Db.Maintained, Db.Flushed, Db.Written, Db.Batches, Db.Numbers,
--   Db.Replayed and Db.Recovery are about flushes, writes and reopening.
-- - Machine: internal/kvstate/state_machine.go, over the database.
-- - Base: lists, tests and words that the parts share, and Go's sort.Slice and sort.Search.
-- - Examples: runs on small inputs.
--
-- Numbers are natural numbers; where Go's uint64 can wrap, `add64`, `sub64` and `mul64` write it
-- out. Bytes are numbers, and a string is its bytes.
--
-- Bounds and fuel: sort.Search runs on as many rounds as there are elements, which is enough since
-- a round halves the interval; ReadAll on one more round than the file has bytes, which is enough
-- since a round that goes on reads at least 21 of them; the loops over a table file and its index
-- likewise, with records of at least 17 bytes and index entries of at least 12; a merge on one
-- more round than there are records, since a round takes at least one. Every other loop is over a
-- list, or counts an index down.
--
-- Parameters: `Codec` is encoding/json on a configuration entry, of which is used that it reads
-- back the two commands of a change as it writes them, and `crc` the checksum of hash/crc32, of
-- which only its size is used. protobuf on a command is a pair of functions, of which nothing is
-- assumed. `Hashing` has FNV-1a of hash/fnv, and the sizes of a bloom filter, which are computed
-- in floating point. A panic in maybeCommit is the flag `panicked` of the node.
--
-- Not modelled: the files behind the store and errors of the file system; the runtime's goroutines
-- and the transports; the streams of a table (stream_writer.go) and of a snapshot
-- (replica_snapshot.go); the snapshots of the state machine; counters and times; commands,
-- benchmarks and generated code.
pub mod Base
pub mod Raft
pub mod Store
pub mod Memtable
pub mod Wal
pub mod Bloom
pub mod Sstable
pub mod Compact
pub mod Manifest
pub mod Db
pub mod Machine
pub mod Examples
