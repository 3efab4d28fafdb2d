-- ===== src/Tests.antt =====
-- Concrete peers, servers and encoders, and the theorems applied to them.
pub mod Codec
pub mod Encoders
pub mod Peers
mod Election
mod Replication
mod Compaction
mod Runs
mod Service
mod Shuffle
mod Clerks
mod Clusters
mod Stages
mod Texts
mod First
