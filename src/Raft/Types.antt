-- ===== src/Raft/Types.antt =====
-- The data of raft.go and persister.go. A command is of any type `C` (Go's interface{}).
-- Go's int is ℕ where the code keeps it from going below 0; -1 for "nobody" and for "no term" is
-- `none`. A locked section of a peer takes the peer's record and gives the new one.
use mit.Prelude.{ℕ, Bool, Option, List}

-- []byte; nil and the empty slice are both []
abbrev pub Bytes : Type 0
Bytes = List ℕ

pub record LogEntry (C : Type 0) : Type 0 where
  pub command : Option C  -- nil in the placeholder at the head of a log
  pub term : ℕ
  pub index : ℕ

pub data Role : Type 0 where
  follower candidate leader : Role

pub data ApplyMsg (C : Type 0) : Type 0 where
  -- CommandValid: Command, CommandIndex and CommandTerm
  valid : Option C → ℕ → ℕ → ApplyMsg C
  -- not CommandValid: Snapshot
  snapshot : Bytes → ApplyMsg C

-- persister.go: the bytes that survive a crash
pub record Persister : Type 0 where
  pub raftstate : Bytes
  pub snapshot : Bytes

-- A Broadcast on one of the three condition variables.
pub data Signal : Type 0 where
  apply_cond leader_cond non_leader_cond : Signal

pub record Raft (C : Type 0) : Type 0 where
  pub peers : ℕ  -- len(peers)
  pub me : ℕ
  pub persister : Persister
  pub apply_ch : List (ApplyMsg C)  -- what was sent on applyCh, oldest first
  pub signals : List Signal  -- the broadcasts so far, oldest first
  pub state : Role
  pub leader_id : Option ℕ
  pub election_timeout : ℕ
  pub heartbeat_period : ℕ
  pub latest_issue_time : ℕ
  pub latest_heard_time : ℕ
  pub current_term : ℕ
  pub vote_for : Option ℕ
  pub log : List (LogEntry C)
  pub commit_index : ℕ
  pub last_applied : ℕ
  pub next_index : List ℕ
  pub match_index : List ℕ
  pub last_included_index : ℕ
  pub last_included_term : Option ℕ

-- The clock in nanoseconds, and what rand.Intn(150) returns, at one reset of the election timer.
pub record Tick : Type 0 where
  pub now : ℕ
  pub random : ℕ

pub record RequestVoteArgs : Type 0 where
  pub term : ℕ
  pub candidate_id : ℕ
  pub last_log_index : ℕ
  pub last_log_term : ℕ

pub record RequestVoteReply : Type 0 where
  pub term : ℕ
  pub vote_granted : Bool

pub record AppendEntriesArgs (C : Type 0) : Type 0 where
  pub term : ℕ
  pub leader_id : ℕ
  pub prev_log_index : ℕ
  pub prev_log_term : ℕ
  pub entries : List (LogEntry C)
  pub leader_commit : ℕ

pub record AppendEntriesReply : Type 0 where
  pub term : ℕ
  pub conflict_term : ℕ
  pub conflict_first_index : ℕ
  pub success : Bool

pub record InstallSnapshotArgs : Type 0 where
  pub term : ℕ
  pub leader_id : ℕ
  pub last_included_index : ℕ
  pub last_included_term : Option ℕ
  pub snapshot_bytes : Bytes  -- Data

pub record InstallSnapshotReply : Type 0 where
  pub term : ℕ
