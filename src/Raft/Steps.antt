-- ===== src/Raft/Steps.antt =====
-- The locked sections of a peer as one step relation: whatever the network, the clock and the
-- scheduler do, the peer's record changes by these steps only. One assumption is made of the
-- scheduler: the two locked sections in which broadcastAppendEntries compares the term and acts on a
-- refusal run with none between them.
pub mod Monotone
pub mod Role
use mit.Prelude.{ℕ, ◌≡◌, true, false, some}
use mit.Raft.Types.{
  Bytes, Raft, Tick, RequestVoteArgs, RequestVoteReply, AppendEntriesArgs, AppendEntriesReply,
  InstallSnapshotArgs, InstallSnapshotReply,
}
use mit.Raft.Gob.{Gob}
use mit.Raft.Vote.{is_current, request_vote, start_election, handle_vote_reply}
use mit.Raft.Append.{append_entries}
use mit.Raft.Replicate.{Round, Outcome, handle_success, handle_refusal}
use mit.Raft.Snapshot.{take_snapshot, install_snapshot, handle_snapshot_reply, note_snapshot_sent}
use mit.Raft.Service.{append_command, broadcast_heartbeat, apply_section}

module _ {C : Type 0} (gob : Gob C) where
  -- The steps that leave elections alone.
  pub data Quiet (rf rf' : Raft C) : Type 0 where
    append :
        (args : AppendEntriesArgs C) (t u : Tick) (reply : AppendEntriesReply)
        → append_entries gob args t u rf ≡ some (rf', reply)
        → Quiet rf rf'
    refusal :
        (i : ℕ) (args : AppendEntriesArgs C) (next : ℕ) (reply : AppendEntriesReply) (o : Outcome)
        → is_current args.term rf ≡ true
        → handle_refusal gob i args next reply rf ≡ some (rf', o)
        → Quiet rf rf'
    success :
        (i index : ℕ) (r r' : Round) (o : Outcome)
        → handle_success i index r rf ≡ some (rf', r', o)
        → Quiet rf rf'
    compact :
        (index term : ℕ) (kvs : Bytes)
        → take_snapshot gob index term kvs rf ≡ some rf'
        → Quiet rf rf'
    snapshot_reply :
        (reply : InstallSnapshotReply) → rf' ≡ (handle_snapshot_reply gob reply rf).0 → Quiet rf rf'
    snapshot_sent :
        (i : ℕ) (args : InstallSnapshotArgs) → rf' ≡ note_snapshot_sent i args rf → Quiet rf rf'
    command : (c : C) (now : ℕ) → rf' ≡ (append_command gob c now rf).0 → Quiet rf rf'
    issue : (now : ℕ) → rf' ≡ (broadcast_heartbeat now rf).0 → Quiet rf rf'
    deliver : (i i' : ℕ) → apply_section i rf ≡ some (rf', i') → Quiet rf rf'
    denied :
        (reply : RequestVoteReply) (n : ℕ)
        → reply.vote_granted ≡ false
        → rf' ≡ (handle_vote_reply gob reply n rf).0
        → Quiet rf rf'

  -- All steps but InstallSnapshot.
  pub data Step (rf rf' : Raft C) : Type 0 where
    vote :
        (args : RequestVoteArgs) (t : Tick) (reply : RequestVoteReply)
        → request_vote gob args t rf ≡ some (rf', reply)
        → Step rf rf'
    elect : (t : Tick) → rf' ≡ start_election gob t rf → Step rf rf'
    vote_reply :
        (reply : RequestVoteReply) (n : ℕ)
        → rf' ≡ (handle_vote_reply gob reply n rf).0
        → Step rf rf'
    quiet : Quiet rf rf' → Step rf rf'

  -- InstallSnapshot besides.
  pub data AnyStep (rf rf' : Raft C) : Type 0 where
    step : Step rf rf' → AnyStep rf rf'
    install :
        (args : InstallSnapshotArgs) (reply : InstallSnapshotReply)
        → install_snapshot gob args rf ≡ some (rf', reply)
        → AnyStep rf rf'

  pub data Reach (rf : Raft C) : Raft C → Type 0 where
    here : Reach rf rf
    next : {rf₁ rf₂ : Raft C} → Reach rf rf₁ → AnyStep rf₁ rf₂ → Reach rf rf₂
