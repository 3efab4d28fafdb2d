-- ===== src/MapReduce.antt =====
-- Lab1_MapReduce: `Types` has common.go, common_rpc.go and the files that the tasks exchange,
-- `Tasks` has doMap, doReduce, merge and CleanupFiles, `Schedule` the scheduler and the counts of
-- the workers, `Master` the phases of a sequential run, `Index` the inverted index of ii.go.
pub mod Types
pub mod Tasks
pub mod Schedule
pub mod Master
pub mod Index
