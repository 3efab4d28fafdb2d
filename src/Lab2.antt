-- ===== src/Lab2.antt =====
-- Lab2_Raft: the peer of Part2C/raft.go, before it had snapshots, and in First that of Part2A/raft.go.
pub mod First
pub mod Peer
pub mod Election
pub mod Append
pub mod Replicate
pub mod Service
pub mod Bounds
pub mod Upgrade
