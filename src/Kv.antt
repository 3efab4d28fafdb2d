-- ===== src/Kv.antt =====
-- Lab3_KV_Raft/PartB/kvraft: the key/value service on top of a Raft peer. `Types` has common.go and
-- the data of server.go, `Server` the handlers, `Clerk` client.go.
pub mod Early
pub mod Types
pub mod Server
pub mod Clerk
pub mod Replicas
