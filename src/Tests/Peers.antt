-- ===== src/Tests/Peers.antt =====
-- Three-peer clusters in some states, and the requests that reach their peers.
use mit.Prelude.{ℕ, true, none, some, List, [], ◌∷◌}
use mit.Raft.Types.{
  follower, candidate, leader, LogEntry, Raft, Tick, RequestVoteArgs, AppendEntriesArgs,
  AppendEntriesReply, apply_cond, InstallSnapshotArgs,
}
use mit.Tests.Codec.{nat_gob}

abbrev pub tick : Tick
tick = record { now = 1000; random = 50 }

abbrev pub entry : ℕ → ℕ → ℕ → LogEntry ℕ
entry c t i = record { command = some c; term = t; index = i }

abbrev pub placeholder : LogEntry ℕ
placeholder = record { command = none; term = 0; index = 0 }

abbrev pub two_entries : List (LogEntry ℕ)
two_entries = placeholder ∷ entry 7 1 1 ∷ entry 8 2 2 ∷ []

-- A follower of term 2 that has applied its first entry, as it is with its state on disk.
abbrev pub peer : Raft ℕ
peer = record {
  peers = 3;
  me = 0;
  persister = record { raftstate = nat_gob.encode_state 2 none two_entries; snapshot = [] };
  apply_ch = [];
  signals = [];
  state = follower;
  leader_id = none;
  election_timeout = 600;
  heartbeat_period = 120;
  latest_issue_time = 0;
  latest_heard_time = 0;
  current_term = 2;
  vote_for = none;
  log = two_entries;
  commit_index = 1;
  last_applied = 1;
  next_index = 3 ∷ 3 ∷ 3 ∷ [];
  match_index = 0 ∷ 0 ∷ 0 ∷ [];
  last_included_index = 0;
  last_included_term = none;
}

abbrev pub leading : Raft ℕ
leading = record peer { state = leader; vote_for = some 0 }

abbrev pub running : Raft ℕ
running = record peer { state = candidate; vote_for = some 0 }

-- Candidate 1 asks for a vote in term 3, with a log as long as the peer's.
abbrev pub vote_request : RequestVoteArgs
vote_request = record { term = 3; candidate_id = 1; last_log_index = 2; last_log_term = 2 }

-- Leader 1 of term 2 replaces the second entry by two others.
abbrev pub append_request : AppendEntriesArgs ℕ
append_request = record {
  term = 3;
  leader_id = 1;
  prev_log_index = 1;
  prev_log_term = 1;
  entries = entry 9 3 2 ∷ entry 10 3 3 ∷ [];
  leader_commit = 2;
}

-- The same behind an entry that the peer does not have.
abbrev pub early_request : AppendEntriesArgs ℕ
early_request = record append_request { prev_log_index = 5; prev_log_term = 2 }

abbrev pub snapshot_request : InstallSnapshotArgs
snapshot_request = record {
  term = 3;
  leader_id = 1;
  last_included_index = 2;
  last_included_term = some 2;
  snapshot_bytes = 2 ∷ 2 ∷ [];
}

abbrev pub new_log : List (LogEntry ℕ)
new_log = placeholder ∷ entry 7 1 1 ∷ entry 9 3 2 ∷ entry 10 3 3 ∷ []

-- The peer with the leader's two entries in place of its second one.
abbrev pub appended : Raft ℕ
appended = record peer {
  persister = record { raftstate = nat_gob.encode_state 3 none new_log; snapshot = [] };
  signals = apply_cond ∷ [];
  leader_id = some 1;
  election_timeout = 650;
  latest_heard_time = 1000;
  current_term = 3;
  log = new_log;
  commit_index = 2;
}

abbrev pub success : AppendEntriesReply
success = record { term = 3; conflict_term = 0; conflict_first_index = 0; success = true }
