-- ===== src/Kv/Early.antt =====
-- Lab3_KV_Raft/PartA: the service before it had snapshots.
pub mod Server
pub mod Clerk
pub mod Upgrade
