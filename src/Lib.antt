-- ===== src/Lib.antt =====
-- Models and theorems for the labs of this repository: the Raft peer and the key-value service of
-- Lab3_KV_Raft/PartB, the stages before them in Lab2_Raft/Part2A, Lab2_Raft/Part2C and
-- Lab3_KV_Raft/PartA, and the tasks of Lab1_MapReduce.
--
-- How the parts work together. A clerk (Kv.Clerk) calls Get and PutAppend on one server after
-- another. A server (Kv.Server) gives each operation to its Raft peer by Start and lets it wait
-- under the index that it gets. The peers (Raft) elect a leader, the leader replicates its log, and
-- each peer sends the committed entries on its channel to its server, which applies them to its
-- table, answers the operations that wait, and has the peer compact its log. What is shared between
-- handlers is one record per peer, behind a mutex: each locked section is a function from the old
-- record to the new one.
--
-- Files. Prelude: tests on numbers, lists and Go's slices, maps as association lists, do blocks on
-- Option. Raft (Lab3_KV_Raft/PartB/raft/raft.go and persister.go): Types, the data; Gob, the
-- encoder as an interface; Local, what the handlers share (switchTo, resetElectionTimer, persist,
-- readPersist, addSnapshotIndex, subSnapshotIndex, getLastLogIndex); Vote, RequestVote and
-- startElection; Append, AppendEntries; Replicate, broadcastAppendEntries and getNextIndex;
-- Snapshot, TakeSnapshot, InstallSnapshot and sendInstallSnapshot; Service, Start, applyEntries,
-- broadcastHeartbeat and Make; Steps, the locked sections as one step relation, with what a step
-- keeps (Monotone, Role); Cluster, several peers with the votes that they have granted and counted;
-- Network, the same with the AppendEntries requests on their way; Consensus, with the requests for
-- votes and the replies to AppendEntries too. Lab2 (Lab2_Raft/Part2C/raft.go): Peer, Election,
-- Append, Replicate and Service, as Local, Vote, Append, Replicate and Service of Raft; Bounds;
-- Upgrade, that stage beside the later one; First, the first stage, Lab2_Raft/Part2A. Kv
-- (Lab3_KV_Raft/PartB/kvraft): Types, common.go and the data of server.go; Server, server.go;
-- Clerk, client.go; Early, server.go and client.go of Lab3_KV_Raft/PartA, with Upgrade, that stage
-- beside the later one; Replicas, the servers on top of Raft.Network and Raft.Consensus. MapReduce
-- (Lab1_MapReduce): Types, common.go and the files; Tasks, doMap, doReduce, merge and CleanupFiles;
-- Master, Sequential and run of master.go; Index, ii.go; Schedule, the tasks of schedule.go and the
-- counts that worker.go and master.go keep. Theorems stand in the modules below the module that
-- they are about; Tests has concrete peers, servers and encoders, and applies them.
--
-- Conventions. `none` in a result of type Option is a panic or log.Fatal (an index out of range,
-- bytes that do not decode), but in the loops of Clerk it is a call that has not returned. -1 for
-- nobody, no term or no limit is `none`. Go's int is ℕ where the code keeps it from going below 0,
-- and is taken not to overflow. The clock and rand enter as a Tick. A Broadcast and what is sent on
-- applyCh or on the channel of a waiting operation are appended to lists. Commands are of any type.
-- labgob is not part of the repository: it is a parameter (Gob, TableGob) with the documented law
-- that what was encoded is decoded again; encoding/json is one too (Json), and so is what ii.go
-- uses of the package strings (Strings).
--
-- Interleavings. Where the source gives up its lock between two sections, Raft.Steps lets any
-- sections come in between, with one exception: the test of the term in broadcastAppendEntries and
-- the handling of the refusal behind it count as one step. `start`, `apply_entries` and `begin_op`
-- are runs of their sections with none between them. InstallSnapshot is kept apart from the other
-- steps, as it may overwrite a vote. The entries of an AppendEntries request are those of the
-- section that builds it; in the source they share the array of the log until they are encoded, so
-- that an append in place may change them. A slice may pass the length of the log up to the
-- capacity of its array: `prepare` takes what the array has there as an argument, which may be
-- anything.
--
-- Several peers. In Raft.Cluster any locked section of any peer may come next, with any arguments,
-- and any peer may crash and restart from its disk at any time; only a counted vote has to be one
-- that was granted, to that candidate, and each voter is counted once in an election. The arguments
-- of an election are taken to be built before the candidate's term changes, and the test of the
-- term of a reply and the count of its vote to run with no section between them. Raft.Network adds
-- a pool of requests that never shrinks, so that requests are lost, doubled and overtaken at will,
-- and takes Start as one step; the log of a peer that builds a request is taken to reach the index
-- of the broadcast, as it does unless the peer has lost its leadership since the tests before.
-- InstallSnapshot is left out of all, and TakeSnapshot out of Raft.Network. There, the logs that
-- leaders have had are the history that the invariant is about. Raft.Consensus adds the requests
-- for votes and the replies of success, so that a vote answers what the candidate asked with the
-- log that it had, and nReplica counts peers that have replied. It takes five things more of the
-- scheduler: that a candidate builds its requests for votes while it is one; that the tests before
-- an AppendEntries request is built, and the test of the term of a reply of success, run with the
-- section that follows; that the commit index of a broadcast is above neither its index nor what
-- the leader has committed by then, as where one section reads both; and that the replies counted
-- for a broadcast are those to its leader in its term. Start reads the two in two sections
-- (raft.go:1079): with a commit index above the entries of the request a follower may commit
-- entries that are not the leader's.
--
-- Fuel. apply_loop runs on fuel CommitIndex + 2: it begins at an index above 0 and each round
-- raises the index, so it ends before. digits runs on fuel n + 1 for the digits of n. All else is
-- structural.
--
-- Not modelled: the transport, goroutines, sleeping and wait groups, debug output, the test
-- harness, the channel of workers and the transport of Lab1_MapReduce, and Lab2_Raft/Part2B, whose
-- code is that of Part2C but for one call of persist.
pub mod Prelude
pub mod Raft
pub mod Lab2
pub mod Kv
pub mod MapReduce
pub mod Tests
