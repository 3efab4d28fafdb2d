-- ===== src/Raft/Service.antt =====
-- raft.go: what the service above uses. Start, the loop of applyEntries, Make.
pub mod Restart
pub mod Delivery
use mit.Prelude.{
  ℕ, zero, suc, ◌+◌, Bool, true, false, Option, none, some, [], ◌∷◌, ◌++◌, ltb, leb, ◌==◌,
  if◌then◌else◌, length, replicate, ◌>>=◌,
}
use mit.Raft.Types.{LogEntry, ApplyMsg, follower, Persister, Raft, Tick}
use mit.Raft.Gob.{Gob}
use mit.Raft.Local.{
  is_leader, last_log_index, entry_at, reset_election_timer, persist, read_persist,
}

module _ {C : Type 0} (gob : Gob C) where
  -- The locked section of Start that appends the command, with the index of the new entry.
  unfoldable pub append_command : C → ℕ → Raft C → Raft C × ℕ
  unfolding persist
  append_command command now rf =
      let index = length rf.log + rf.last_included_index in
      let entry : LogEntry C = record {
        command = some command;
        term = rf.current_term;
        index = index;
      } in
      (persist gob (record rf { log = rf.log ++ entry ∷ []; latest_issue_time = now }), index)

  -- Start, with no other section between its own: the new state, the index (`none` for -1), the
  -- term and the leader flag.
  unfoldable pub start : C → ℕ → Raft C → Raft C × Option ℕ × ℕ × Bool
  unfolding append_command is_leader
  start command now rf =
      if is_leader rf
      then (let (rf', index) = append_command command now rf in
          (rf', some index, rf.current_term, true))
      else (rf, none, rf.current_term, false)

module _ {C : Type 0} where
  -- broadcastHeartbeat: the arguments for broadcastAppendEntries, if this is the leader.
  unfoldable pub broadcast_heartbeat : ℕ → Raft C → Raft C × Option (ℕ × ℕ × ℕ)
  unfolding is_leader last_log_index
  broadcast_heartbeat now rf =
      if is_leader rf
      then (
        record rf { latest_issue_time = now },
        some (last_log_index rf, rf.current_term, rf.commit_index),
      )
      else (rf, none)

  -- One round of the inner loop of applyEntries: the locked section, and the next value of `i`. An
  -- index below the snapshot jumps up to it: the source leaves LastIncludedIndex - 1, then i++.
  unfoldable pub apply_section : ℕ → Raft C → Option (Raft C × ℕ)
  unfolding entry_at
  apply_section i rf =
      if leb i rf.last_included_index
      then some (rf, if ltb i rf.last_included_index then rf.last_included_index else i + 1)
      else (do
        e ← entry_at rf i
        some (
          record rf {
            last_applied = i;
            apply_ch = rf.apply_ch ++ ApplyMsg.valid e.command i e.term ∷ [];
          },
          i + 1,
        ))

  -- The inner loop up to the CommitIndex that was read before it, with fuel for its rounds.
  unfoldable pub apply_loop : ℕ → ℕ → ℕ → Raft C → Option (Raft C)
  unfolding apply_section
  apply_loop zero commit i rf = none
  apply_loop (suc fuel) commit i rf = elim (ltb commit i) [
    | true ↦ some rf
    | false ↦ apply_section i rf >>= λ r. apply_loop fuel commit r.1 r.0
  ]

  -- One round of the outer loop, with no other section between its own. If nothing is new it waits.
  unfoldable pub apply_entries : Raft C → Option (Raft C)
  unfolding apply_loop
  apply_entries rf =
      if rf.last_applied == rf.commit_index
      then some rf
      else apply_loop (rf.commit_index + 2) rf.commit_index (rf.last_applied + 1) rf

abbrev pub heartbeat_period : ℕ
heartbeat_period = 120

module _ {C : Type 0} where
  -- The state that Make builds before it reads what was saved.
  unfoldable pub boot : ℕ → ℕ → Persister → Tick → Raft C
  unfolding reset_election_timer
  boot peers me persister tick = reset_election_timer tick (record {
    peers = peers;
    me = me;
    persister = persister;
    apply_ch = [];
    signals = [];
    state = follower;
    leader_id = none;
    election_timeout = 0;
    heartbeat_period = heartbeat_period;
    latest_issue_time = 0;
    latest_heard_time = 0;
    current_term = 0;
    vote_for = none;
    log = record { command = none; term = 0; index = 0 } ∷ [];
    commit_index = 0;
    last_applied = 0;
    next_index = replicate peers 0;
    match_index = replicate peers 0;
    last_included_index = 0;
    last_included_term = none;
  })

module _ {C : Type 0} (gob : Gob C) where
  unfoldable pub make : ℕ → ℕ → Persister → Tick → Option (Raft C)
  unfolding boot read_persist
  make peers me persister tick = read_persist gob persister.raftstate (boot peers me persister tick)
