-- ===== src/Raft.antt =====
-- Lab3_KV_Raft/PartB/raft: one Raft peer. `Types` has the data, `Local` the helpers that every
-- handler calls, and the other children one group of handlers each, with their laws below them.
pub mod Types
pub mod Gob
pub mod Local
pub mod Vote
pub mod Append
pub mod Replicate
pub mod Snapshot
pub mod Service
pub mod Steps
pub mod Cluster
pub mod Network
pub mod Consensus
