-- ===== src/Lab2/Upgrade/Accept.antt =====
-- The branch of AppendEntries that stores entries, in both stages.
use mit.Prelude.{ℕ, max, ◌+◌, ◌≡◌, ◌≢◌, ◌<◌, ◌≤◌, none, some, arith, length, >>=-eq-some}
use mit.Raft.Types.{follower, Role, Raft, Tick, AppendEntriesArgs, AppendEntriesReply}
use mit.Raft.Gob.{Gob}
use mit.Raft.Local.{add_snapshot_index, switch_to}
use mit.Raft.Append.{store_entries, advance_commit, finish_append, accept_entries}
use mit.Lab2.Peer
use mit.Lab2.Append
use mit.Lab2.Upgrade.{Alike, length-map}
use mit.Lab2.Upgrade.Append.{forget_args, store_entries_agrees, store_entries_returns}

-- The same to a leader whose request had the term `sent`. It reads the reply's term only where that is
-- above `sent`.
pub record SameReply (sent : ℕ) (r' r : AppendEntriesReply) : Type 0 where
  pub term : max sent r'.term ≡ max sent r.term
  pub success : r'.success ≡ r.success
  pub conflict_term : r'.conflict_term ≡ r.conflict_term
  pub conflict_first_index : r'.conflict_first_index ≡ r.conflict_first_index

module _ {C : Type 0} (gob : Gob C) (old_gob : Peer.StateGob C) where
  switch_to-Alike :
      (new : Role) (old : Peer.Raft C) (rf : Raft C)
      → Alike old rf
      → Alike (Peer.switch_to new old) (switch_to new rf)
  unfolding switch_to Peer.switch_to
  switch_to-Alike new old rf a = ground (arith, a)

  finish_append-Alike :
      (args : AppendEntriesArgs C) (t : Tick) (old : Peer.Raft C) (rf : Raft C)
      → Alike old rf
      → args.prev_log_index + length args.entries + 1 ≤ length rf.log
      → Alike
          (Append.finish_append old_gob (forget_args args) t old).0
          (finish_append gob args t rf).0
  unfolding finish_append Append.finish_append advance_commit add_snapshot_index
  finish_append-Alike args t old rf a long = ground (arith, a, length-map args.entries)

  pub accept_entries_agrees :
      (args : AppendEntriesArgs C) (t : Tick) (old old' : Peer.Raft C) (rf rf' : Raft C)
      (r r' : AppendEntriesReply)
      → Alike old rf
      → rf.current_term ≤ args.term
      → args.prev_log_index < length rf.log
      → accept_entries gob args t rf ≡ some (rf', r)
      → Append.accept_entries old_gob (forget_args args) t old ≡ some (old', r')
      → Alike old' rf' × SameReply args.term r' r
  unfolding accept_entries Append.accept_entries finish_append Append.finish_append switch_to
  accept_entries_agrees args t old old' rf rf' r r' a due lt h h' =
      let (rf₁, e, d) = >>=-eq-some (store_entries args (switch_to follower rf)) _ h in
      let (old₁, e', d') =
        >>=-eq-some (Append.store_entries (forget_args args) (Peer.switch_to follower old)) _ h' in
      let switched = switch_to-Alike follower old rf a in
      let (a₁, long) =
        store_entries_agrees (Peer.switch_to follower old) (switch_to follower rf) switched args
          old₁ rf₁ lt e e' in
      let b = finish_append-Alike args t old₁ rf₁ a₁ long in
      (
        ground (arith, b),
        record {
          term = ground (arith, a);
          success = ground arith;
          conflict_term = ground arith;
          conflict_first_index = ground arith;
        },
      )

  pub accept_entries_returns :
      (args : AppendEntriesArgs C) (t : Tick) (old : Peer.Raft C) (rf rf' : Raft C)
      (r : AppendEntriesReply)
      → Alike old rf
      → accept_entries gob args t rf ≡ some (rf', r)
      → Append.accept_entries old_gob (forget_args args) t old ≢ none
  unfolding accept_entries Append.accept_entries
  accept_entries_returns args t old rf rf' r a h =
      let (rf₁, e, d) = >>=-eq-some (store_entries args (switch_to follower rf)) _ h in
      ground (
        arith,
        store_entries_returns (Peer.switch_to follower old) (switch_to follower rf)
            (switch_to-Alike follower old rf a) args rf₁ e,
      )
