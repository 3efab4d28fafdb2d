-- ===== src/Raft/Steps/Monotone.antt =====
-- What no step of a peer takes back.
use mit.Prelude.{ℕ, ◌≡◌, ◌⊎◌, ◌≤◌, true, some, arith}
use mit.Raft.Types.{
  Bytes, Raft, Tick, RequestVoteArgs, RequestVoteReply, AppendEntriesArgs, AppendEntriesReply,
  InstallSnapshotArgs, InstallSnapshotReply,
}
use mit.Raft.Gob.{Gob}
use mit.Raft.Local.{last_log_index}
use mit.Raft.Vote.{is_current, request_vote, start_election, handle_vote_reply}
use mit.Raft.Append.{append_entries, adopt_leader_term}
use mit.Raft.Append.Frame.{check_entries-Accepted}
use mit.Raft.Replicate.{Round, Outcome, handle_success, handle_refusal}
use mit.Raft.Snapshot.{take_snapshot, install_snapshot, handle_snapshot_reply, note_snapshot_sent}
use mit.Raft.Service.{append_command, broadcast_heartbeat, apply_section}
use mit.Raft.Steps.{
  Quiet, denied, quiet, Step, vote, elect, vote_reply, append, refusal, success, compact,
  snapshot_reply, snapshot_sent, command, issue, deliver, AnyStep, step, install, Reach, here, next,
}

module _ {C : Type 0} (gob : Gob C) where
  -- What is on disk is what a restart needs.
  abbrev pub IsSaved : Raft C → Type 0
  IsSaved rf = rf.persister.raftstate ≡ gob.encode_state rf.current_term rf.vote_for rf.log

  -- Nothing that is to be saved has changed.
  abbrev Untouched : Raft C → Raft C → Type 0
  Untouched rf rf' =
      (rf'.persister.raftstate ≡ rf.persister.raftstate)
      × (rf'.current_term ≡ rf.current_term)
      × (rf'.vote_for ≡ rf.vote_for)
      × (rf'.log ≡ rf.log)

  pub record Keeps (rf rf' : Raft C) : Type 0 where
    pub term : rf.current_term ≤ rf'.current_term
    pub commit : rf.commit_index ≤ last_log_index rf' → rf.commit_index ≤ rf'.commit_index
    pub included : rf.last_included_index ≤ rf'.last_included_index
    pub saved : IsSaved rf' ⊎ Untouched rf rf'
    pub me : rf'.me ≡ rf.me
    pub peers : rf'.peers ≡ rf.peers

  -- The vote that stands in a term.
  abbrev pub KeepsVote : Raft C → Raft C → Type 0
  KeepsVote rf rf' =
      (v : ℕ) → rf'.current_term ≡ rf.current_term → rf.vote_for ≡ some v → rf'.vote_for ≡ some v

  pub request_vote-Keeps :
      (args : RequestVoteArgs) (t : Tick) (rf rf' : Raft C) (reply : RequestVoteReply)
      → request_vote gob args t rf ≡ some (rf', reply)
      → Keeps rf rf' × KeepsVote rf rf'
  unfolding request_vote last_log_index
  request_vote-Keeps args t rf rf' reply h = (ground arith, λ v e o. ground arith)

  pub handle_vote_reply-Keeps :
      (reply : RequestVoteReply) (n : ℕ) (rf : Raft C)
      → Keeps rf (handle_vote_reply gob reply n rf).0
        × KeepsVote rf (handle_vote_reply gob reply n rf).0
  unfolding handle_vote_reply last_log_index
  handle_vote_reply-Keeps reply n rf = (ground arith, λ v e o. ground arith)

  append_entries-Keeps :
      (args : AppendEntriesArgs C) (t u : Tick) (rf rf' : Raft C) (reply : AppendEntriesReply)
      → append_entries gob args t u rf ≡ some (rf', reply)
      → Keeps rf rf' × KeepsVote rf rf'
  unfolding append_entries adopt_leader_term last_log_index
  append_entries-Keeps args t u rf rf' reply h = (
    ground (
      arith,
      check_entries-Accepted gob args u rf rf' reply,
      check_entries-Accepted gob args u (adopt_leader_term gob args.term t rf) rf' reply,
    ),
    λ v e o. ground (
      arith,
      check_entries-Accepted gob args u rf rf' reply,
      check_entries-Accepted gob args u (adopt_leader_term gob args.term t rf) rf' reply,
    ),
  )

  handle_refusal-Keeps :
      (i : ℕ) (args : AppendEntriesArgs C) (n : ℕ) (reply : AppendEntriesReply) (o : Outcome)
      (rf rf' : Raft C)
      → is_current args.term rf ≡ true
      → handle_refusal gob i args n reply rf ≡ some (rf', o)
      → Keeps rf rf' × KeepsVote rf rf'
  unfolding handle_refusal is_current last_log_index
  handle_refusal-Keeps i args n reply o rf rf' s h = (ground arith, λ v e o. ground arith)

  install_snapshot-Keeps :
      (args : InstallSnapshotArgs) (rf rf' : Raft C) (reply : InstallSnapshotReply)
      → install_snapshot gob args rf ≡ some (rf', reply)
      → Keeps rf rf'
  unfolding install_snapshot last_log_index
  install_snapshot-Keeps args rf rf' reply h = ground arith

  handle_success-Keeps :
      (i index : ℕ) (r r' : Round) (o : Outcome) (rf rf' : Raft C)
      → handle_success i index r rf ≡ some (rf', r', o)
      → Keeps rf rf' × KeepsVote rf rf'
  unfolding handle_success last_log_index
  handle_success-Keeps i index r r' o rf rf' h = (ground arith, λ v e q. ground arith)

  take_snapshot-Keeps :
      (index term : ℕ) (kvs : Bytes) (rf rf' : Raft C)
      → take_snapshot gob index term kvs rf ≡ some rf'
      → Keeps rf rf' × KeepsVote rf rf'
  unfolding take_snapshot last_log_index
  take_snapshot-Keeps index term kvs rf rf' h = (ground arith, λ v e q. ground arith)

  pub start_election-Keeps :
      (t : Tick) (rf : Raft C)
      → Keeps rf (start_election gob t rf) × KeepsVote rf (start_election gob t rf)
  unfolding start_election last_log_index
  start_election-Keeps t rf = (ground arith, λ v e q. ground arith)

  apply_section-Keeps :
      (i i' : ℕ) (rf rf' : Raft C)
      → apply_section i rf ≡ some (rf', i')
      → Keeps rf rf' × KeepsVote rf rf'
  unfolding apply_section last_log_index
  apply_section-Keeps i i' rf rf' h = (ground arith, λ v e q. ground arith)

  handle_snapshot_reply-Keeps :
      (reply : InstallSnapshotReply) (rf : Raft C)
      → Keeps rf (handle_snapshot_reply gob reply rf).0
        × KeepsVote rf (handle_snapshot_reply gob reply rf).0
  unfolding handle_snapshot_reply last_log_index
  handle_snapshot_reply-Keeps reply rf = (ground arith, λ v e q. ground arith)

  note_snapshot_sent-Keeps :
      (i : ℕ) (args : InstallSnapshotArgs) (rf : Raft C)
      → Keeps rf (note_snapshot_sent i args rf) × KeepsVote rf (note_snapshot_sent i args rf)
  unfolding note_snapshot_sent last_log_index
  note_snapshot_sent-Keeps i args rf = (ground arith, λ v e q. ground arith)

  append_command-Keeps :
      (c : C) (now : ℕ) (rf : Raft C)
      → Keeps rf (append_command gob c now rf).0 × KeepsVote rf (append_command gob c now rf).0
  unfolding append_command last_log_index
  append_command-Keeps c now rf = (ground arith, λ v e q. ground arith)

  broadcast_heartbeat-Keeps :
      (now : ℕ) (rf : Raft C)
      → Keeps rf (broadcast_heartbeat now rf).0 × KeepsVote rf (broadcast_heartbeat now rf).0
  unfolding broadcast_heartbeat last_log_index
  broadcast_heartbeat-Keeps now rf = (ground arith, λ v e q. ground arith)

  pub Quiet-Keeps : {rf rf' : Raft C} → Quiet gob rf rf' → Keeps rf rf' × KeepsVote rf rf'
  Quiet-Keeps (append args t u reply h) = append_entries-Keeps args t u _ _ reply h
  Quiet-Keeps (refusal i args n reply o s h) = handle_refusal-Keeps i args n reply o _ _ s h
  Quiet-Keeps (success i index r r' o h) = handle_success-Keeps i index r r' o _ _ h
  Quiet-Keeps (compact index term kvs h) = take_snapshot-Keeps index term kvs _ _ h
  Quiet-Keeps {rf} (snapshot_reply reply e) = rw e (handle_snapshot_reply-Keeps reply rf)
  Quiet-Keeps {rf} (snapshot_sent i args e) = rw e (note_snapshot_sent-Keeps i args rf)
  Quiet-Keeps {rf} (command c now e) = rw e (append_command-Keeps c now rf)
  Quiet-Keeps {rf} (issue now e) = rw e (broadcast_heartbeat-Keeps now rf)
  Quiet-Keeps (deliver i i' h) = apply_section-Keeps i i' _ _ h
  Quiet-Keeps {rf} (denied reply n d e) = rw e (handle_vote_reply-Keeps reply n rf)

  Step-Keeps : {rf rf' : Raft C} → Step gob rf rf' → Keeps rf rf' × KeepsVote rf rf'
  Step-Keeps (vote args t reply h) = request_vote-Keeps args t _ _ reply h
  Step-Keeps {rf} (elect t e) = rw e (start_election-Keeps t rf)
  Step-Keeps {rf} (vote_reply reply n e) = rw e (handle_vote_reply-Keeps reply n rf)
  Step-Keeps (quiet s) = Quiet-Keeps s

  AnyStep-Keeps : {rf rf' : Raft C} → AnyStep gob rf rf' → Keeps rf rf'
  AnyStep-Keeps (step s) = (Step-Keeps s).0
  AnyStep-Keeps (install args reply h) = install_snapshot-Keeps args _ _ reply h

  -- No step but InstallSnapshot changes the vote that a peer has cast in a term: while the term stays
  -- the same, a vote that is cast stays cast for the same candidate.
  vote_stays :
      {rf rf' : Raft C} (v : ℕ)
      → Step gob rf rf'
      → rf'.current_term ≡ rf.current_term
      → rf.vote_for ≡ some v
      → rf'.vote_for ≡ some v
  vote_stays v s e o = (Step-Keeps s).1 v e o

  -- Over any run of steps, the term and the index of the last snapshot never fall.
  term_grows :
      {rf rf' : Raft C}
      → Reach gob rf rf'
      → (rf.current_term ≤ rf'.current_term) × (rf.last_included_index ≤ rf'.last_included_index)
  term_grows here = omega arith
  term_grows (next r s) = omega (arith, term_grows r, AnyStep-Keeps s)

  -- What is on disk is the term, the vote and the log of the peer, after any run of steps that starts
  -- with such a disk: no handler forgets to persist a change.
  pub Reach-IsSaved : {rf rf' : Raft C} → Reach gob rf rf' → IsSaved rf → IsSaved rf'
  Reach-IsSaved here h = h
  Reach-IsSaved (next r s) h = ground (arith, AnyStep-Keeps s, Reach-IsSaved r h)
