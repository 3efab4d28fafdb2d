-- ===== src/Lab2/Service.antt =====
-- Lab2_Raft/Part2C/raft.go: Start, applyEntries, broadcastHeartbeat and Make.
use mit.Prelude.{
  ℕ, zero, suc, ◌+◌, ◌-◌, Bool, true, false, Option, none, some, [], ◌∷◌, ◌++◌, ◌==◌, if◌then◌else◌,
  length, get_elem?, replicate, ◌>>=◌,
}
use mit.Raft.Types.{follower, Persister, Tick}
use mit.Raft.Service.{heartbeat_period}
use mit.Lab2.Peer.{LogEntry, Raft, StateGob, is_leader, reset_election_timer, persist, read_persist}

module _ {C : Type 0} (gob : StateGob C) where
  -- The locked section of Start that appends the command, with the index of the new entry.
  unfoldable pub append_command : C → ℕ → Raft C → Raft C × ℕ
  unfolding persist
  append_command command now rf =
      let entry : LogEntry C = record { command = some command; term = rf.current_term } in
      let rf₁ = record rf { log = rf.log ++ entry ∷ []; latest_issue_time = now } in
      (persist gob rf₁, length rf₁.log - 1)

  -- Start, with no other section between its own: the new state, the index (`none` for -1), the
  -- term and the leader flag.
  unfoldable pub start : C → ℕ → Raft C → Raft C × Option ℕ × ℕ × Bool
  unfolding append_command is_leader
  start command now rf =
      if is_leader rf
      then (let (rf', index) = append_command command now rf in
          (rf', some index, rf.current_term, true))
      else (rf, none, rf.current_term, false)

module _ {C : Type 0} where
  -- broadcastHeartbeat: the arguments for broadcastAppendEntries, if this is the leader.
  unfoldable pub broadcast_heartbeat : ℕ → Raft C → Raft C × Option (ℕ × ℕ × ℕ)
  unfolding is_leader
  broadcast_heartbeat now rf =
      if is_leader rf
      then (
        record rf { latest_issue_time = now },
        some (length rf.log - 1, rf.current_term, rf.commit_index),
      )
      else (rf, none)

  -- One round of the inner loop of applyEntries.
  unfoldable pub apply_section : ℕ → Raft C → Option (Raft C)
  apply_section i rf = do
    e ← get_elem? rf.log i
    some (record rf {
      last_applied = i;
      apply_ch = rf.apply_ch ++ record { command = e.command; command_index = i } ∷ [];
    })

  -- The inner loop from index `i` on, by the number of rounds that are left.
  unfoldable pub apply_loop : ℕ → ℕ → Raft C → Option (Raft C)
  unfolding apply_section
  apply_loop zero i rf = some rf
  apply_loop (suc rounds) i rf = apply_section i rf >>= λ rf₁. apply_loop rounds (suc i) rf₁

  -- One round of the outer loop, with no other section between its own. If nothing is new it waits.
  unfoldable pub apply_entries : Raft C → Option (Raft C)
  unfolding apply_loop
  apply_entries rf =
      if rf.last_applied == rf.commit_index
      then some rf
      else apply_loop (rf.commit_index - rf.last_applied) (rf.last_applied + 1) rf

  -- The state that Make builds before it reads what was saved.
  unfoldable pub boot : ℕ → ℕ → Persister → Tick → Raft C
  unfolding reset_election_timer
  boot peers me persister tick = reset_election_timer tick (record {
    peers = peers;
    me = me;
    persister = persister;
    apply_ch = [];
    signals = [];
    state = follower;
    leader_id = none;
    election_timeout = 0;
    heartbeat_period = heartbeat_period;
    latest_issue_time = 0;
    latest_heard_time = 0;
    current_term = 0;
    vote_for = none;
    log = record { command = none; term = 0 } ∷ [];
    commit_index = 0;
    last_applied = 0;
    next_index = replicate peers 0;
    match_index = replicate peers 0;
  })

module _ {C : Type 0} (gob : StateGob C) where
  unfoldable pub make : ℕ → ℕ → Persister → Tick → Option (Raft C)
  unfolding boot read_persist
  make peers me persister tick = read_persist gob persister.raftstate (boot peers me persister tick)
