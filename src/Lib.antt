-- ===== src/Lib.antt =====
-- bgPLS: a collector that receives BGP-LS topology from BGP peers, reconciles what several peers
-- say of one entity, keeps the result with its history in an embedded store, and serves it.
--
-- The parts and their files:
-- - gen/bgpls/v1 (messages): Entities, Store/Json (TopologyEvent and the JSON codec) and the
--   records Page, TopologyFilter and PathConstraints beside the code that reads them.
-- - internal/store/store.go: Store/Maps (lookupLocked, setRevision, applyMemoryLocked, undoEntity
--   over the five maps), Store/State (Apply and Get, the byte keys, the subscriptions), Store/Pebble
--   (the database as an interface with the laws of a batch and of a scan). Store/Maps/Undo,
--   Store/State/Journal and Store/State/Durable prove what Apply writes and that it can be undone.
-- - internal/topology/reconcile.go: Topology/Merge (mergeEntity and its parts), Topology/Reconcile
--   (Reconciler.Apply, MarkPeerStale), with the order of the sources in Topology/Reconcile/Order.
-- - internal/topology/graph.go: Topology/Graph (NewGraph, metric, eligible), Topology/Graph/Search
--   (shortest), the meaning of the constraints in Topology/Graph/Constraints and the lists of links
--   in Topology/Graph/Rooted. Under Topology/Graph/Search: Potential and Termination (a measure that
--   falls), Paths (paths and their costs), Invariant, Relaxing, Queue, Rounds and Finish (what holds
--   between the rounds), Optimal and Answer.
--   Compute and ComputeMany: Topology/Graph/Compute, with what a computed path is in
--   Topology/Graph/Compute/Sound and the other paths in Topology/Graph/Compute/Alternatives.
--   Analyze: Topology/Graph/Impact, with the search of a component in Topology/Graph/Impact/Marks
--   and Topology/Graph/Impact/Components, the links that survive in Topology/Graph/Impact/Survivors,
--   all components in Topology/Graph/Impact/Connected and the answer in
--   Topology/Graph/Impact/Unreachable.
-- - internal/bgp/collector.go: Bgp/Collector (the tables of peers and addresses, and the calls of
--   the BGP engine), with the invariant of the tables in Bgp/Collector/Linked and what
--   addresses find in Bgp/Collector/Addresses; Bgp/Session (session
--   events and rejected updates), with what they overwrite in Bgp/Session/Overwrite.
-- - internal/api: Api/Filter (topology filters), Api/Page (pages and their tokens), Api/Auth (roles
--   and the middleware), Api/Peers (the operations on peers), each with its laws in a child
--   module.
-- - the reads of the store (Snapshot, Events, OldestRevision, SnapshotAt): Store/Reads, with the
--   undoing of whole histories in Store/Reads/Run and a store without history in
--   Store/Reads/Expired. Those of the topology service: Api/Topology, with what they find in
--   Api/Topology/Found.
-- - internal/config/config.go: Configuration, with what a valid configuration is in
--   Configuration/Valid.
-- - the subscriptions and the compaction of the store: Store/History, with what is replayed in
--   Store/History/Replay and what is kept in Store/History/Compaction. ListChanges, DiffTopology and
--   the start of WatchTopology: Api/History, with what they answer in Api/History/Changes.
-- - StreamSnapshot: Api/Stream, with what the messages hold in Api/Stream/Whole.
-- - GetSummary, Resolve and resolveNodeID: Api/Summary, with what they count and find in
--   Api/Summary/Counted and Api/Summary/Longest. ComputePaths and AnalyzeImpact:
--   Api/Paths.
-- - Open and load: Store/Load, with what a reopened store holds in Store/Load/Reopened.
-- - Base: numbers, lists, texts as lists of bytes, association lists for the maps of Go, ASCII
--   and unpadded base64url.
-- - Tests: a database in memory, a codec and concrete inputs at which the theorems are applied.
--
-- How the code is represented. Strings and byte slices are lists of bytes; a map is an association
-- list, whose order stands for the order of iteration; a pointer that may be nil is an Option. A
-- value that the code clones is the value itself. Integers are natural numbers, reduced modulo
-- 2 ^ 64 where uint64 arithmetic can wrap; bandwidths, which are float64 in the source and are only
-- compared, are natural numbers too. Times are numbers, and the clock's reading is an
-- argument. Locks are not represented: an operation that runs under a lock is one step. Errors are
-- constructors without their texts. `sort.Slice` is insertion sort, which is stable; where keys
-- are distinct every sort agrees. The priority queue is a list from which the least item is taken.
--
-- Code from elsewhere is an argument: Pebble (`Pebble`, with the laws of its batches and scans), the
-- JSON encoder (`Json`, which reads back what it has written for the messages that it calls plain),
-- the BGP engine (`Engine`), the peer manager (`PeerManager`), `path.Match` (`glob`), `net`, YAML and
-- `netip` (`parse_addr`, `parse_prefix` and the others by their names).
--
-- Fuel: the loop of `shortest` has `search_fuel`: each push lowers the distance of a node, or keeps
-- it and lowers the position of the link that led there, so the number of links times the number of
-- such values bounds the rounds. The walk back has the distance of the destination, which each step
-- lowers. The walk along pages takes one unit for each page, and any number above the number of
-- entities is enough for it.
-- The loops that read events in chunks go on behind the last event of a chunk, and the number of
-- revisions is their fuel.
-- The search for the components of Analyze has one unit for each entry of the lists of neighbors and
-- two more; `StreamSnapshot` has one for each entity that is left and one more.
--
-- Not modelled: the wire format and the reflection code that protoc generates, the HTTP server and
-- the static user interface, the command line, TLS certificates, and the translation of
-- BGP-LS attributes. Failures of database iterators and entities without
-- metadata, at which some handlers would panic, are not represented.
pub mod Base
pub mod Entities
pub mod Store
pub mod Topology
pub mod Bgp
pub mod Api
pub mod Configuration
mod Tests
