-- ===== src/Raft/Consensus/Commits.antt =====
-- The commit index of a peer: what it covers has been acknowledged by a majority.
use mit.Prelude.{ℕ, ◌≡◌, ◌≤◌, ◌⊎◌, inl, inr, some, List, arith, >>=-eq-some}
use mit.Raft.Types.{
  LogEntry, Raft, Tick, RequestVoteArgs, RequestVoteReply, AppendEntriesArgs, AppendEntriesReply,
  Persister, follower,
}
use mit.Raft.Gob.{Gob}
use mit.Raft.Local.{switch_to}
use mit.Raft.Vote.{request_vote, start_election, handle_vote_reply}
use mit.Raft.Append.{
  append_entries, check_entries, accept_entries, store_entries, finish_append, advance_commit,
  adopt_leader_term, is_consistent,
}
use mit.Raft.Append.Frame.{store_entries_frame}
use mit.Raft.Replicate.{handle_refusal}
use mit.Raft.Snapshot.{handle_snapshot_reply, note_snapshot_sent}
use mit.Raft.Service.{make, broadcast_heartbeat, apply_section}
use mit.Raft.Steps.{
  Quiet, append, refusal, success, compact, snapshot_reply, snapshot_sent, command, issue, deliver,
  denied,
}
use mit.Raft.Cluster.{Has}
use mit.Raft.Network.{LeavesLog}
use mit.Raft.Network.Prefix.{IsPrefix}
use mit.Raft.Consensus.{Ack, IsUncounted}
use mit.Raft.Consensus.Reigns.{Reign, Upto}
use mit.Raft.Consensus.Quorum.{Certified}

module _ {C : Type 0} where
  abbrev still_certified :
      (n : ℕ) (rs rs' : List (Reign C)) (acks acks' : List Ack)
      → ((r : Reign C) → Has r rs → Has r rs')
      → ((a : Ack) → Has a acks → Has a acks')
      → Certified n rs acks
      → Certified n rs' acks'
  still_certified n rs rs' acks acks' more more' c = record {
    reign = c.reign;
    inside = more c.reign c.inside;
    index = c.index;
    entry = c.entry;
    at = c.at;
    term = c.term;
    voters = c.voters;
    distinct = c.distinct;
    below = c.below;
    majority = c.majority;
    acked = λ v h. let (a, ha, e, t, i) = c.acked v h in (a, more' a ha, e, t, i);
  }

  -- A log may be taken as committed up to index `k`, in term `t`.
  pub record Covered (n : ℕ) (rs : List (Reign C)) (acks : List Ack) (t : ℕ) (x : List (LogEntry C))
      (k : ℕ) : Type 0 where
    pub by : Certified n rs acks
    pub term : by.reign.term ≤ t
    pub below : k ≤ by.index
    pub same : Upto k by.reign.log x

  abbrev pub Safely : ℕ → List (Reign C) → List Ack → ℕ → List (LogEntry C) → ℕ → Type 0
  Safely n rs acks t x k = (k ≡ 0) ⊎ Covered n rs acks t x k

  pub Safely-more :
      (n : ℕ) (rs rs' : List (Reign C)) (acks acks' : List Ack) (t t' : ℕ)
      (x x' : List (LogEntry C)) (k k' : ℕ)
      → ((r : Reign C) → Has r rs → Has r rs')
      → ((a : Ack) → Has a acks → Has a acks')
      → t ≤ t'
      → IsPrefix x x'
      → k' ≤ k
      → Safely n rs acks t x k
      → Safely n rs' acks' t' x' k'
  Safely-more n rs rs' acks acks' t t' x x' k k' more more' le p less (inl z) = inl (omega arith)
  Safely-more n rs rs' acks acks' t t' x x' k k' more more' le p less (inr c) = inr (record {
    by = still_certified n rs rs' acks acks' more more' c.by;
    term = omega (arith, c.term);
    below = omega (arith, c.below);
    same = λ j e lj at. p j e (c.same j e (omega arith) at);
  })

module _ {C : Type 0} (gob : Gob C) (n : ℕ) where
  pub Quiet-SameCommit :
      {rf rf' : Raft C} (q : Quiet gob rf rf')
      → LeavesLog gob n q
      → IsUncounted gob n q
      → rf'.commit_index ≡ rf.commit_index
  unfolding handle_refusal handle_snapshot_reply note_snapshot_sent broadcast_heartbeat
      apply_section handle_vote_reply
  Quiet-SameCommit (append args t u reply h) l c = elim l [ ]
  Quiet-SameCommit (compact index term kvs h) l c = elim l [ ]
  Quiet-SameCommit (command c' now e) l c = elim l [ ]
  Quiet-SameCommit (success i index r r' o h) l c = elim c [ ]
  Quiet-SameCommit (refusal i args m reply o s h) l c = ground arith
  Quiet-SameCommit (snapshot_reply reply e) l c = ground arith
  Quiet-SameCommit (snapshot_sent i args e) l c = ground arith
  Quiet-SameCommit (issue now e) l c = ground arith
  Quiet-SameCommit (deliver i i' h) l c = ground arith
  Quiet-SameCommit (denied reply m d e) l c = ground arith

  pub request_vote-SameCommit :
      (args : RequestVoteArgs) (t : Tick) (rf rf' : Raft C) (reply : RequestVoteReply)
      → request_vote gob args t rf ≡ some (rf', reply)
      → rf'.commit_index ≡ rf.commit_index
  unfolding request_vote
  request_vote-SameCommit args t rf rf' reply h = ground arith

  pub handle_vote_reply-SameCommit :
      (reply : RequestVoteReply) (m : ℕ) (rf : Raft C)
      → (handle_vote_reply gob reply m rf).0.commit_index ≡ rf.commit_index
  unfolding handle_vote_reply
  handle_vote_reply-SameCommit reply m rf = ground arith

  pub start_election-SameCommit :
      (t : Tick) (rf : Raft C) → (start_election gob t rf).commit_index ≡ rf.commit_index
  unfolding start_election
  start_election-SameCommit t rf = ground arith

  -- A peer that is made has committed nothing but its snapshot.
  pub make_commit :
      (peers me : ℕ) (p : Persister) (t : Tick) (rf : Raft C)
      → make gob peers me p t ≡ some rf
      → rf.commit_index ≤ rf.last_included_index
  unfolding make
  make_commit peers me p t rf h = ground arith

  -- A follower commits no further than the leader tells it.
  Told : AppendEntriesArgs C → Raft C → Raft C → Type 0
  Told args rf rf' = (rf'.commit_index ≡ rf.commit_index) ⊎ (rf'.commit_index ≤ args.leader_commit)

  finish_append-Told :
      (args : AppendEntriesArgs C) (t : Tick) (rf : Raft C)
      → Told args rf (finish_append gob args t rf).0
  unfolding finish_append advance_commit Told
  finish_append-Told args t rf = ground arith

  accept_entries-Told :
      (args : AppendEntriesArgs C) (t : Tick) (rf rf' : Raft C) (reply : AppendEntriesReply)
      → accept_entries gob args t rf ≡ some (rf', reply)
      → Told args rf rf'
  unfolding accept_entries switch_to Told
  accept_entries-Told args t rf rf' reply h =
      let (rf₁, stored, done) = >>=-eq-some (store_entries args (switch_to follower rf)) _ h in
      ground (
        arith,
        store_entries_frame args (switch_to follower rf) rf₁ stored,
        finish_append-Told args t rf₁,
      )

  check_entries-Told :
      (args : AppendEntriesArgs C) (t : Tick) (rf rf' : Raft C) (reply : AppendEntriesReply)
      → check_entries gob args t rf ≡ some (rf', reply)
      → Told args rf rf'
  unfolding check_entries is_consistent Told
  check_entries-Told args t rf rf' reply h = ground (arith, accept_entries-Told args t rf rf' reply)

  pub append_entries-Told :
      (args : AppendEntriesArgs C) (t u : Tick) (rf rf' : Raft C) (reply : AppendEntriesReply)
      → append_entries gob args t u rf ≡ some (rf', reply)
      → (rf'.commit_index ≡ rf.commit_index) ⊎ (rf'.commit_index ≤ args.leader_commit)
  unfolding append_entries adopt_leader_term Told
  append_entries-Told args t u rf rf' reply h = ground (
    arith,
    check_entries-Told args u rf rf' reply,
    check_entries-Told args u (adopt_leader_term gob args.term t rf) rf' reply,
  )
