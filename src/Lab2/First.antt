-- ===== src/Lab2/First.antt =====
-- Lab2_Raft/Part2A/raft.go: the first stage, elections alone. No code writes the log or the indexes.
-- int32 is ℕ as int is. The argument of each section that sets the timer is what Int63n returns.
pub mod Ballots
pub mod Late
use mit.Prelude.{
  ℕ, ◌+◌, ◌-◌, ◌*◌, ◌/◌, ◌≡◌, Bool, true, false, ◌&&◌, ◌||◌, Option, none, some, List, [], ◌∷◌, ltb,
  leb, ◌==◌, if◌then◌else◌, length, replicate, get_elem?,
}
use mit.Raft.Types.{Role, follower, candidate, leader}
use mit.Raft.Vote.{may_vote_for}

pub record Log (C : Type 0) : Type 0 where
  pub command : C
  pub term : ℕ

-- commitIndex and lastApplied are -1 from Make on, and LastLogIndex of an empty log is: `none`.
pub record Raft (C : Type 0) : Type 0 where
  pub peers : ℕ  -- len(peers)
  pub me : ℕ
  pub logs : List (Log C)
  pub voted_for : Option ℕ
  pub current_term : ℕ
  pub state : Role
  pub commit_index : Option ℕ
  pub last_applied : Option ℕ
  pub vote_granted_count : ℕ
  pub next_index : List ℕ
  pub match_index : List ℕ
  pub election_timer : ℕ  -- the last duration that it was set to, in milliseconds
  -- The goroutines that send on voteCh. Make leaves voteCh nil: they wait for ever.
  pub vote_signals : ℕ

pub record RequestVoteArgs : Type 0 where
  pub term : ℕ
  pub candidate_id : ℕ
  pub last_log_index : Option ℕ
  pub last_log_term : ℕ

pub record RequestVoteReply : Type 0 where
  pub term : ℕ
  pub vote_granted : Bool

pub record AppendEntryArgs (C : Type 0) : Type 0 where
  pub term : ℕ
  pub leader_id : ℕ
  pub prev_log_index : ℕ
  pub prev_log_term : ℕ
  pub entries : List (Log C)
  pub leader_commit : Option ℕ

pub record AppendEntryReply : Type 0 where
  pub term : ℕ
  pub success : Bool

abbrev same_role : Role → Role → Bool
same_role follower follower = true
same_role candidate candidate = true
same_role leader leader = true
same_role _ _ = false

module _ {C : Type 0} where
  unfoldable pub is_state : Role → Raft C → Bool
  is_state r rf = same_role rf.state r

  unfoldable pub get_state : Raft C → ℕ × Bool
  unfolding is_state
  get_state rf = (rf.current_term, is_state leader rf)

  unfoldable pub increment_term : Raft C → Raft C
  increment_term rf = record rf { current_term = rf.current_term + 1 }

  -- Becoming a follower frees the vote.
  unfoldable pub switch_to : Role → Raft C → Raft C
  unfolding is_state
  switch_to r rf =
      if is_state r rf
      then rf
      else record rf { state = r; voted_for = elim r [ follower ↦ none | _ ↦ rf.voted_for ] }

  -- randElectionDuration, from what Int63n(150) returns
  unfoldable pub reset_timer : ℕ → Raft C → Raft C
  reset_timer r rf = record rf { election_timer = r + 150 }

  -- args.LastLogIndex >= len(rf.logs)
  unfoldable pub is_long : Option ℕ → Raft C → Bool
  is_long none rf = false
  is_long (some k) rf = leb (length rf.logs) k

  -- The handler RequestVote, without the signal.
  unfoldable pub decide_vote : RequestVoteArgs → Raft C → Raft C × Bool
  unfolding is_long may_vote_for switch_to
  decide_vote args rf =
      if ltb args.term rf.current_term
      then (rf, false)
      else if args.term == rf.current_term
      then if may_vote_for args.candidate_id rf.voted_for && is_long args.last_log_index rf
        then (record rf { voted_for = some args.candidate_id }, true)
        else (rf, false)
      else (
        record (switch_to follower rf) {
          current_term = args.term;
          voted_for = some args.candidate_id;
        },
        true,
      )

  -- RequestVote
  unfoldable pub request_vote : RequestVoteArgs → Raft C → Raft C × RequestVoteReply
  unfolding decide_vote
  request_vote args rf =
      let out = decide_vote args rf in
      let rf₁ = out.0 in
      (
        if out.1 then record rf₁ { vote_signals = rf₁.vote_signals + 1 } else rf₁,
        record { term = rf₁.current_term; vote_granted = out.1 },
      )

  -- AppendEntries. A reply of success leaves its term at 0.
  unfoldable pub append_entries : AppendEntryArgs C → ℕ → Raft C → Raft C × AppendEntryReply
  unfolding switch_to reset_timer
  append_entries args r rf =
      if ltb args.term rf.current_term
      then (rf, record { term = rf.current_term; success = false })
      else if ltb rf.current_term args.term
      then (
        reset_timer r (switch_to follower (record rf { current_term = args.term })),
        record { term = 0; success = true },
      )
      else (reset_timer r rf, record { term = 0; success = true })

  -- What broadcastVoteReq sends to each peer.
  unfoldable pub vote_args : Raft C → RequestVoteArgs
  vote_args rf = record {
    term = rf.current_term;
    candidate_id = rf.me;
    last_log_index = elim rf.logs [ [] ↦ none | _ ∷ logs ↦ some (length logs) ];
    last_log_term = elim (get_elem? rf.logs (length rf.logs - 1)) [ some e ↦ e.term | none ↦ 0 ];
  }

  -- What its goroutine for one peer does with a reply.
  unfoldable pub handle_vote_reply : RequestVoteReply → Raft C → Raft C
  unfolding switch_to
  handle_vote_reply reply rf =
      if reply.vote_granted
      then record rf { vote_granted_count = rf.vote_granted_count + 1 }
      else if ltb rf.current_term reply.term
      then switch_to follower (record rf { current_term = reply.term })
      else rf

  -- What broadcastAppendEntries sends to each peer, and what its goroutine does with a reply.
  unfoldable pub append_args : Raft C → AppendEntryArgs C
  append_args rf = record {
    term = rf.current_term;
    leader_id = rf.me;
    prev_log_index = 0;
    prev_log_term = 0;
    entries = [];
    leader_commit = rf.commit_index;
  }

  unfoldable pub handle_append_reply : AppendEntryReply → ℕ → Raft C → Raft C
  unfolding switch_to reset_timer
  handle_append_reply reply r rf =
      if reply.success
      then rf
      else if ltb rf.current_term reply.term
      then reset_timer r (switch_to follower (record rf { current_term = reply.term }))
      else rf

  -- Start does nothing in this stage.
  unfoldable pub start : Raft C → Option ℕ × Option ℕ × Bool
  start rf = (none, none, true)

  unfoldable pub make : ℕ → ℕ → Raft C
  make peers me = record {
    peers = peers;
    me = me;
    logs = [];
    voted_for = none;
    current_term = 0;
    state = follower;
    commit_index = none;
    last_applied = none;
    vote_granted_count = 0;
    next_index = replicate peers 0;
    match_index = replicate peers 0;
    election_timer = 0;
    vote_signals = 0;
  }

  -- startElection up to the broadcast
  unfoldable pub start_election : ℕ → Raft C → Raft C
  unfolding increment_term reset_timer
  start_election r rf =
      reset_timer r (record (increment_term rf) { voted_for = some rf.me; vote_granted_count = 1 })

  -- The turn of raftLoop that found a follower, once the timer has fired.
  unfoldable pub follower_turn : ℕ → Raft C → Raft C
  unfolding switch_to start_election
  follower_turn r rf = start_election r (switch_to candidate rf)

  -- The locked section of the turn that found a candidate, which need not be one any more.
  unfoldable pub candidate_turn : Bool → ℕ → ℕ → Raft C → Raft C
  unfolding reset_timer start_election switch_to
  candidate_turn fired r r' rf =
      if fired
      then start_election r' (reset_timer r rf)
      else if ltb (rf.peers / 2) rf.vote_granted_count
      then switch_to leader rf
      else rf
