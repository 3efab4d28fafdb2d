-- ===== src/Raft/Append/Frame.antt =====
-- What AppendEntries leaves alone: all that is not the log, the commit index, the term and the vote.
use mit.Prelude.{ℕ, ◌+◌, ◌≡◌, ◌≤◌, ◌⊎◌, some, List, arith, >>=-eq-some}
use mit.Raft.Types.{follower, Raft, LogEntry, Tick, AppendEntriesArgs, AppendEntriesReply}
use mit.Raft.Gob.{Gob}
use mit.Raft.Local.{last_log_index, switch_to}
use mit.Raft.Append.{
  replace_from, store_entries, finish_append, accept_entries, check_entries, is_match,
}

module _ {C : Type 0} where
  replace_from_frame :
      (rf rf' : Raft C) (next : ℕ) (es : List (LogEntry C))
      → replace_from rf next es ≡ some rf'
      → rf' ≡ record rf { log = rf'.log }
  unfolding replace_from
  replace_from_frame rf rf' next es h = ground arith

  pub store_entries_frame :
      (args : AppendEntriesArgs C) (rf rf' : Raft C)
      → store_entries args rf ≡ some rf'
      → rf' ≡ record rf { log = rf'.log }
  unfolding store_entries
  store_entries_frame args rf rf' h = ground (
    arith,
    is_match rf (args.prev_log_index + 1) args.entries,
    replace_from_frame rf rf' (args.prev_log_index + 1) args.entries,
  )

module _ {C : Type 0} (gob : Gob C) where
  -- What a run of AppendEntries with its term not above the own keeps, and that it saves the state.
  pub record Accepted (rf rf' : Raft C) : Type 0 where
    pub term : rf'.current_term ≡ rf.current_term
    pub vote : rf'.vote_for ≡ rf.vote_for
    pub commit : rf.commit_index ≤ last_log_index rf' → rf.commit_index ≤ rf'.commit_index
    pub me : rf'.me ≡ rf.me
    pub peers : rf'.peers ≡ rf.peers
    pub role : (rf'.state ≡ follower) ⊎ (rf'.state ≡ rf.state)
    pub included : rf'.last_included_index ≡ rf.last_included_index
    pub saved : rf'.persister.raftstate ≡ gob.encode_state rf'.current_term rf'.vote_for rf'.log

  finish_append-Accepted :
      (args : AppendEntriesArgs C) (t : Tick) (rf : Raft C)
      → Accepted rf (finish_append gob args t rf).0
  unfolding finish_append last_log_index
  finish_append-Accepted args t rf = ground arith

  pub accept_entries-Accepted :
      (args : AppendEntriesArgs C) (t : Tick) (rf rf' : Raft C) (reply : AppendEntriesReply)
      → accept_entries gob args t rf ≡ some (rf', reply)
      → Accepted rf rf'
  unfolding accept_entries switch_to last_log_index
  accept_entries-Accepted args t rf rf' reply h =
      let (rf₁, stored, done) = >>=-eq-some (store_entries args (switch_to follower rf)) _ h in
      ground (
        arith,
        store_entries_frame args (switch_to follower rf) rf₁ stored,
        finish_append-Accepted args t rf₁,
      )

  pub check_entries-Accepted :
      (args : AppendEntriesArgs C) (t : Tick) (rf rf' : Raft C) (reply : AppendEntriesReply)
      → check_entries gob args t rf ≡ some (rf', reply)
      → (rf' ≡ rf) ⊎ Accepted rf rf'
  unfolding check_entries
  check_entries-Accepted args t rf rf' reply h =
      ground (arith, accept_entries-Accepted args t rf rf' reply)
