-- ===== src/Raft/Steps/Role.antt =====
-- The role of a peer across the steps that leave elections alone.
use mit.Prelude.{ℕ, ◌≡◌, ◌⊎◌, false, some, arith}
use mit.Raft.Types.{
  Bytes, follower, Raft, Tick, AppendEntriesArgs, AppendEntriesReply, InstallSnapshotReply,
  RequestVoteArgs, RequestVoteReply, InstallSnapshotArgs,
}
use mit.Raft.Gob.{Gob}
use mit.Raft.Vote.{request_vote, handle_vote_reply}
use mit.Raft.Append.{append_entries, adopt_leader_term}
use mit.Raft.Append.Frame.{check_entries-Accepted}
use mit.Raft.Replicate.{Round, Outcome, handle_success, handle_refusal}
use mit.Raft.Snapshot.{take_snapshot, handle_snapshot_reply, note_snapshot_sent}
use mit.Raft.Service.{append_command, broadcast_heartbeat, apply_section}
use mit.Raft.Steps.{
  Quiet, append, refusal, success, compact, snapshot_reply, snapshot_sent, command, issue, deliver,
  denied,
}

module _ {C : Type 0} (gob : Gob C) where
  -- A peer that does not follow after the step had its role and its term before.
  abbrev pub KeepsRole : Raft C → Raft C → Type 0
  KeepsRole rf rf' =
      (rf'.state ≡ follower) ⊎ ((rf'.state ≡ rf.state) × (rf'.current_term ≡ rf.current_term))

  pub request_vote-KeepsRole :
      (args : RequestVoteArgs) (t : Tick) (rf rf' : Raft C) (reply : RequestVoteReply)
      → request_vote gob args t rf ≡ some (rf', reply)
      → KeepsRole rf rf'
  unfolding request_vote
  request_vote-KeepsRole args t rf rf' reply h = ground arith

  append_entries-KeepsRole :
      (args : AppendEntriesArgs C) (t u : Tick) (rf rf' : Raft C) (reply : AppendEntriesReply)
      → append_entries gob args t u rf ≡ some (rf', reply)
      → KeepsRole rf rf'
  unfolding append_entries adopt_leader_term
  append_entries-KeepsRole args t u rf rf' reply h = ground (
    arith,
    check_entries-Accepted gob args u rf rf' reply,
    check_entries-Accepted gob args u (adopt_leader_term gob args.term t rf) rf' reply,
  )

  handle_refusal-KeepsRole :
      (i : ℕ) (args : AppendEntriesArgs C) (n : ℕ) (reply : AppendEntriesReply) (o : Outcome)
      (rf rf' : Raft C)
      → handle_refusal gob i args n reply rf ≡ some (rf', o)
      → KeepsRole rf rf'
  unfolding handle_refusal
  handle_refusal-KeepsRole i args n reply o rf rf' h = ground arith

  handle_success-KeepsRole :
      (i index : ℕ) (r r' : Round) (o : Outcome) (rf rf' : Raft C)
      → handle_success i index r rf ≡ some (rf', r', o)
      → KeepsRole rf rf'
  unfolding handle_success
  handle_success-KeepsRole i index r r' o rf rf' h = ground arith

  take_snapshot-KeepsRole :
      (index term : ℕ) (kvs : Bytes) (rf rf' : Raft C)
      → take_snapshot gob index term kvs rf ≡ some rf'
      → KeepsRole rf rf'
  unfolding take_snapshot
  take_snapshot-KeepsRole index term kvs rf rf' h = ground arith

  apply_section-KeepsRole :
      (i i' : ℕ) (rf rf' : Raft C) → apply_section i rf ≡ some (rf', i') → KeepsRole rf rf'
  unfolding apply_section
  apply_section-KeepsRole i i' rf rf' h = ground arith

  handle_snapshot_reply-KeepsRole :
      (reply : InstallSnapshotReply) (rf : Raft C)
      → KeepsRole rf (handle_snapshot_reply gob reply rf).0
  unfolding handle_snapshot_reply
  handle_snapshot_reply-KeepsRole reply rf = ground arith

  note_snapshot_sent-KeepsRole :
      (i : ℕ) (args : InstallSnapshotArgs) (rf : Raft C)
      → KeepsRole rf (note_snapshot_sent i args rf)
  unfolding note_snapshot_sent
  note_snapshot_sent-KeepsRole i args rf = ground arith

  append_command-KeepsRole :
      (c : C) (now : ℕ) (rf : Raft C) → KeepsRole rf (append_command gob c now rf).0
  unfolding append_command
  append_command-KeepsRole c now rf = ground arith

  broadcast_heartbeat-KeepsRole :
      (now : ℕ) (rf : Raft C) → KeepsRole rf (broadcast_heartbeat now rf).0
  unfolding broadcast_heartbeat
  broadcast_heartbeat-KeepsRole now rf = ground arith

  denied-KeepsRole :
      (reply : RequestVoteReply) (n : ℕ) (rf : Raft C)
      → reply.vote_granted ≡ false
      → KeepsRole rf (handle_vote_reply gob reply n rf).0
  unfolding handle_vote_reply
  denied-KeepsRole reply n rf d = ground arith

  pub Quiet-KeepsRole : {rf rf' : Raft C} → Quiet gob rf rf' → KeepsRole rf rf'
  Quiet-KeepsRole (append args t u reply h) = append_entries-KeepsRole args t u _ _ reply h
  Quiet-KeepsRole (refusal i args n reply o s h) = handle_refusal-KeepsRole i args n reply o _ _ h
  Quiet-KeepsRole (success i index r r' o h) = handle_success-KeepsRole i index r r' o _ _ h
  Quiet-KeepsRole (compact index term kvs h) = take_snapshot-KeepsRole index term kvs _ _ h
  Quiet-KeepsRole {rf} (snapshot_reply reply e) = rw e (handle_snapshot_reply-KeepsRole reply rf)
  Quiet-KeepsRole {rf} (snapshot_sent i args e) = rw e (note_snapshot_sent-KeepsRole i args rf)
  Quiet-KeepsRole {rf} (command c now e) = rw e (append_command-KeepsRole c now rf)
  Quiet-KeepsRole {rf} (issue now e) = rw e (broadcast_heartbeat-KeepsRole now rf)
  Quiet-KeepsRole (deliver i i' h) = apply_section-KeepsRole i i' _ _ h
  Quiet-KeepsRole {rf} (denied reply n d e) = rw e (denied-KeepsRole reply n rf d)
