-- ===== src/Raft/Snapshot.antt =====
-- raft.go: TakeSnapshot, InstallSnapshot and sendInstallSnapshot.
pub mod Compaction
use mit.Prelude.{
  ℕ, ◌+◌, Bool, true, false, ◌||◌, Option, none, some, [], ◌∷◌, ◌++◌, List, ltb, leb, if◌then◌else◌,
  set, slice_from, max, ◌>>=◌,
}
use mit.Raft.Types.{
  Bytes, LogEntry, ApplyMsg, follower, Raft, InstallSnapshotArgs, InstallSnapshotReply,
}
use mit.Raft.Gob.{Gob}
use mit.Raft.Local.{
  is_leader, sub_snapshot_index, last_log_index, switch_to, persist, persist_with_snapshot,
}

module _ {C : Type 0} where
  -- The log from `index` on, whose first entry is the new placeholder.
  unfoldable log_from : Raft C → ℕ → Option (List (LogEntry C))
  unfolding sub_snapshot_index slice_from
  log_from rf index = do k ← sub_snapshot_index rf index; slice_from rf.log k

  -- The two cases of InstallSnapshot for the new log. A placeholder of term -1 has no model: a
  -- snapshot of index above 0 has a term.
  unfoldable installed_log : InstallSnapshotArgs → Raft C → Option (List (LogEntry C))
  unfolding log_from last_log_index
  installed_log args rf =
      if leb args.last_included_index (last_log_index rf)
      then log_from rf args.last_included_index
      else (do
        t ← args.last_included_term
        some (record { command = none; term = t; index = args.last_included_index } ∷ []))

module _ {C : Type 0} (gob : Gob C) where
  unfoldable pub take_snapshot : ℕ → ℕ → Bytes → Raft C → Option (Raft C)
  unfolding log_from persist_with_snapshot
  take_snapshot index term kvs rf = if leb index rf.last_included_index then some rf else (do
    log ← log_from rf index
    some (
        persist_with_snapshot gob (gob.encode_header index term ++ kvs)
          (record rf { log = log; last_included_index = index; last_included_term = some term })))

  -- The handler InstallSnapshot. The reply's term is the one before the change.
  unfoldable pub install_snapshot :
      InstallSnapshotArgs → Raft C → Option (Raft C × InstallSnapshotReply)
  unfolding installed_log switch_to persist_with_snapshot
  install_snapshot args rf =
      if ltb args.term rf.current_term || leb args.last_included_index rf.last_included_index
      then some (rf, record { term = rf.current_term })
      else (do
        let rf₁ = switch_to follower (record rf { current_term = args.term })
        log ← installed_log args rf₁
        let rf₂ = persist_with_snapshot gob args.snapshot_bytes (record rf₁ {
          vote_for = some args.leader_id;
          log = log;
          last_included_index = args.last_included_index;
          last_included_term = args.last_included_term;
          last_applied = max args.last_included_index rf.last_applied;
          commit_index = max args.last_included_index rf.commit_index;
        })
        some (
          record rf₂ { apply_ch = rf.apply_ch ++ ApplyMsg.snapshot args.snapshot_bytes ∷ [] },
          record { term = rf.current_term },
        ))

  -- sendInstallSnapshot, first section after the reply: a later term is taken over (VoteFor stays).
  -- The flag says that the function returns.
  unfoldable pub handle_snapshot_reply : InstallSnapshotReply → Raft C → Raft C × Bool
  unfolding switch_to persist
  handle_snapshot_reply reply rf =
      if ltb rf.current_term reply.term
      then (persist gob (switch_to follower (record rf { current_term = reply.term })), true)
      else (rf, false)

module _ {C : Type 0} where
  -- its last section, which it enters if GetState still says leader
  unfoldable pub note_snapshot_sent : ℕ → InstallSnapshotArgs → Raft C → Raft C
  unfolding is_leader
  note_snapshot_sent i args rf =
      if is_leader rf
      then record rf {
        next_index = set rf.next_index i (args.last_included_index + 1);
        match_index = set rf.match_index i args.last_included_index;
      }
      else rf
