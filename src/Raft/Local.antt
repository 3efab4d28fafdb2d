-- ===== src/Raft/Local.antt =====
-- raft.go: what the handlers share. Index arithmetic over the snapshot, the role switch, the
-- election timer, saving and restoring the persistent state.
use mit.Prelude.{
  ℕ, ◌+◌, ◌-◌, ◌*◌, ◌/◌, Bool, true, false, Option, none, some, List, [], ◌∷◌, ◌++◌, length,
  get_elem?, ltb, leb, if◌then◌else◌, ◌>>=◌,
}
use mit.Raft.Types.{
  Bytes, LogEntry, Role, follower, candidate, leader, Persister, Signal, leader_cond,
  non_leader_cond, Raft, Tick,
}
use mit.Raft.Gob.{Gob}

-- SaveRaftState
unfoldable pub save_raft_state : Bytes → Persister → Persister
save_raft_state s ps = record ps { raftstate = s }

-- SaveStateAndSnapshot
unfoldable save_state_and_snapshot : Bytes → Bytes → Persister → Persister
save_state_and_snapshot s d ps = record { raftstate = s; snapshot = d }

-- RaftStateSize
unfoldable pub raft_state_size : Persister → ℕ
raft_state_size ps = length ps.raftstate

-- what switchTo signals, from the old and the new state
unfoldable pub broadcasts : Role → Role → List Signal
broadcasts leader follower = non_leader_cond ∷ []
broadcasts candidate leader = leader_cond ∷ []
broadcasts _ _ = []

module _ {C : Type 0} where
  unfoldable pub is_leader : Raft C → Bool
  is_leader rf = elim rf.state [ leader ↦ true | _ ↦ false ]

  -- GetState
  unfoldable pub get_state : Raft C → ℕ × Bool
  unfolding is_leader
  get_state rf = (rf.current_term, is_leader rf)

  -- addSnapshotIndex
  unfoldable pub add_snapshot_index : Raft C → ℕ → ℕ
  add_snapshot_index rf index = index + rf.last_included_index

  -- subSnapshotIndex, as an index into `log`: below 0 an access panics
  unfoldable pub sub_snapshot_index : Raft C → ℕ → Option ℕ
  sub_snapshot_index rf index =
      if ltb index rf.last_included_index then none else some (index - rf.last_included_index)

  -- getLastLogIndex: `log` is never empty, it starts with a placeholder
  unfoldable pub last_log_index : Raft C → ℕ
  unfolding add_snapshot_index
  last_log_index rf = add_snapshot_index rf (length rf.log - 1)

  -- rf.Log[rf.subSnapshotIndex(index)]
  unfoldable pub entry_at : Raft C → ℕ → Option (LogEntry C)
  unfolding sub_snapshot_index
  entry_at rf index = do i ← sub_snapshot_index rf index; get_elem? rf.log i

  unfoldable pub term_at : Raft C → ℕ → Option ℕ
  unfolding entry_at
  term_at rf index = do e ← entry_at rf index; some e.term

  -- switchTo
  unfoldable pub switch_to : Role → Raft C → Raft C
  unfolding broadcasts
  switch_to new rf = record rf { state = new; signals = rf.signals ++ broadcasts rf.state new }

  unfoldable pub reset_election_timer : Tick → Raft C → Raft C
  reset_election_timer t rf = record rf {
    election_timeout = rf.heartbeat_period * 5 + t.random;
    latest_heard_time = t.now;
  }

  -- the test of electionTimeoutTick on a peer that is no leader: milliseconds since the last reset
  unfoldable pub election_due : ℕ → Raft C → Bool
  unfolding is_leader
  election_due now rf =
      if is_leader rf
      then false
      else leb rf.election_timeout ((now - rf.latest_heard_time) / 1000000)

  -- the test of heartbeatPeriodTick on a leader
  unfoldable pub heartbeat_due : ℕ → Raft C → Bool
  unfolding is_leader
  heartbeat_due now rf =
      if is_leader rf
      then leb rf.heartbeat_period ((now - rf.latest_issue_time) / 1000000)
      else false

module _ {C : Type 0} (gob : Gob C) where
  unfoldable pub persist : Raft C → Raft C
  unfolding save_raft_state
  persist rf = record rf {
    persister = save_raft_state (gob.encode_state rf.current_term rf.vote_for rf.log) rf.persister;
  }

  -- TakeSnapshot and InstallSnapshot save the snapshot beside the state
  unfoldable pub persist_with_snapshot : Bytes → Raft C → Raft C
  unfolding save_state_and_snapshot
  persist_with_snapshot snap rf = record rf {
    persister =
        save_state_and_snapshot (gob.encode_state rf.current_term rf.vote_for rf.log) snap
          rf.persister;
  }

  -- readPersist; `none` is log.Fatal
  unfoldable pub read_persist : Bytes → Raft C → Option (Raft C)
  read_persist [] rf = some rf
  read_persist (b ∷ bs) rf = do
    (t, v, l) ← gob.decode_state (b ∷ bs)
    some (record rf { current_term = t; vote_for = v; log = l })
