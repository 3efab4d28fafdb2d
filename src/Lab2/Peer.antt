-- ===== src/Lab2/Peer.antt =====
-- Lab2_Raft/Part2C/raft.go: the data, and what the handlers share. The conventions are those of
-- Raft.Types, whose types are used where the structs are the same.
use mit.Prelude.{
  ℕ, ◌-◌, ◌*◌, ◌+◌, ◌/◌, ◌≡◌, Bool, true, false, Option, some, List, [], ◌∷◌, ◌++◌, get_elem?, leb,
  if◌then◌else◌, ◌>>=◌,
}
use mit.Raft.Types.{Bytes, Role, leader, Persister, Signal, Tick}
use mit.Raft.Local.{save_raft_state, broadcasts}

pub record LogEntry (C : Type 0) : Type 0 where
  pub command : Option C  -- nil in the placeholder at the head of a log
  pub term : ℕ

-- CommandValid is true in every message; Command and CommandIndex.
pub record ApplyMsg (C : Type 0) : Type 0 where
  pub command : Option C
  pub command_index : ℕ

-- The two channels of ticks only wake the event loop, and no code reads nVotes.
pub record Raft (C : Type 0) : Type 0 where
  pub peers : ℕ  -- len(peers)
  pub me : ℕ
  pub persister : Persister
  pub apply_ch : List (ApplyMsg C)  -- what was sent on applyCh, oldest first
  pub signals : List Signal  -- the broadcasts so far, oldest first
  pub state : Role
  pub leader_id : Option ℕ
  pub election_timeout : ℕ
  pub heartbeat_period : ℕ
  pub latest_issue_time : ℕ
  pub latest_heard_time : ℕ
  pub current_term : ℕ
  pub vote_for : Option ℕ
  pub log : List (LogEntry C)
  pub commit_index : ℕ
  pub last_applied : ℕ
  pub next_index : List ℕ
  pub match_index : List ℕ

pub record AppendEntriesArgs (C : Type 0) : Type 0 where
  pub term : ℕ
  pub leader_id : ℕ
  pub prev_log_index : ℕ
  pub prev_log_term : ℕ
  pub entries : List (LogEntry C)
  pub leader_commit : ℕ

-- labgob on CurrentTerm, VoteFor and Log.
pub record StateGob (C : Type 0) : Type 0 where
  pub encode_state : ℕ → Option ℕ → List (LogEntry C) → Bytes
  pub decode_state : Bytes → Option (ℕ × Option ℕ × List (LogEntry C))
  pub decode_state-encode_state :
      (t : ℕ) (v : Option ℕ) (l : List (LogEntry C))
      → decode_state (encode_state t v l) ≡ some (t, v, l)

module _ {C : Type 0} where
  unfoldable pub is_leader : Raft C → Bool
  is_leader rf = elim rf.state [ leader ↦ true | _ ↦ false ]

  -- GetState
  unfoldable pub get_state : Raft C → ℕ × Bool
  unfolding is_leader
  get_state rf = (rf.current_term, is_leader rf)

  -- rf.Log[index].Term
  unfoldable pub term_at : Raft C → ℕ → Option ℕ
  term_at rf index = do e ← get_elem? rf.log index; some e.term

  -- switchTo
  unfoldable pub switch_to : Role → Raft C → Raft C
  unfolding broadcasts
  switch_to new rf = record rf { state = new; signals = rf.signals ++ broadcasts rf.state new }

  unfoldable pub reset_election_timer : Tick → Raft C → Raft C
  reset_election_timer t rf = record rf {
    election_timeout = rf.heartbeat_period * 5 + t.random;
    latest_heard_time = t.now;
  }

  -- the test of electionTimeoutTick on a peer that is no leader
  unfoldable pub election_due : ℕ → Raft C → Bool
  unfolding is_leader
  election_due now rf =
      if is_leader rf
      then false
      else leb rf.election_timeout ((now - rf.latest_heard_time) / 1000000)

  -- the test of heartbeatPeriodTick on a leader
  unfoldable pub heartbeat_due : ℕ → Raft C → Bool
  unfolding is_leader
  heartbeat_due now rf =
      if is_leader rf
      then leb rf.heartbeat_period ((now - rf.latest_issue_time) / 1000000)
      else false

module _ {C : Type 0} (gob : StateGob C) where
  unfoldable pub persist : Raft C → Raft C
  unfolding save_raft_state
  persist rf = record rf {
    persister = save_raft_state (gob.encode_state rf.current_term rf.vote_for rf.log) rf.persister;
  }

  -- readPersist; `none` is log.Fatal
  unfoldable pub read_persist : Bytes → Raft C → Option (Raft C)
  read_persist [] rf = some rf
  read_persist (b ∷ bs) rf = do
    (t, v, l) ← gob.decode_state (b ∷ bs)
    some (record rf { current_term = t; vote_for = v; log = l })
