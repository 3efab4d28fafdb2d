-- ===== src/Raft/Append/Written.antt =====
-- What AppendEntries writes: nothing, or the entries of the request behind an entry that it has in
-- common with the peer.
use mit.Prelude.{ℕ, ◌+◌, ◌-◌, ◌≡◌, ◌≤◌, ◌⊎◌, some, ◌++◌, arith, length, take, >>=-eq-some}
use mit.Raft.Types.{follower, Raft, Tick, AppendEntriesArgs, AppendEntriesReply}
use mit.Raft.Gob.{Gob}
use mit.Raft.Local.{term_at, switch_to, entry_at}
use mit.Raft.Append.{
  is_match, replace_from, store_entries, finish_append, accept_entries, check_entries,
  is_consistent, adopt_leader_term, append_entries,
}
use mit.Raft.Append.Frame.{store_entries_frame, check_entries-Accepted}

module _ {C : Type 0} where
  pub record Wrote (args : AppendEntriesArgs C) (rf rf' : Raft C) : Type 0 where
    pub above : rf.last_included_index ≤ args.prev_log_index + 1
    pub within : args.prev_log_index + 1 - rf.last_included_index ≤ length rf.log
    pub log :
        rf'.log ≡ take (args.prev_log_index + 1 - rf.last_included_index) rf.log ++ args.entries

  store_entries-Wrote :
      (args : AppendEntriesArgs C) (rf rf' : Raft C)
      → store_entries args rf ≡ some rf'
      → (rf'.log ≡ rf.log) ⊎ Wrote args rf rf'
  unfolding store_entries replace_from
  store_entries-Wrote args rf rf' h =
      ground (arith, is_match rf (args.prev_log_index + 1) args.entries)

module _ {C : Type 0} (gob : Gob C) where
  pub record Accepts (args : AppendEntriesArgs C) (rf rf' : Raft C) : Type 0 where
    pub role : rf'.state ≡ follower
    pub common : term_at rf args.prev_log_index ≡ some args.prev_log_term
    pub wrote : Wrote args rf rf'

  pub finish_append_log :
      (args : AppendEntriesArgs C) (t : Tick) (rf : Raft C)
      → ((finish_append gob args t rf).0.log ≡ rf.log)
        × ((finish_append gob args t rf).0.state ≡ rf.state)
  unfolding finish_append
  finish_append_log args t rf = ground arith

  accept_entries_log :
      (args : AppendEntriesArgs C) (t : Tick) (rf rf' : Raft C) (reply : AppendEntriesReply)
      → accept_entries gob args t rf ≡ some (rf', reply)
      → (rf'.state ≡ follower) × ((rf'.log ≡ rf.log) ⊎ Wrote args rf rf')
  unfolding accept_entries switch_to
  accept_entries_log args t rf rf' reply h =
      let (rf₁, stored, done) = >>=-eq-some (store_entries args (switch_to follower rf)) _ h in
      ground (
        arith,
        store_entries-Wrote args (switch_to follower rf) rf₁ stored,
        store_entries_frame args (switch_to follower rf) rf₁ stored,
        finish_append_log args t rf₁,
      )

  check_entries_log :
      (args : AppendEntriesArgs C) (t : Tick) (rf rf' : Raft C) (reply : AppendEntriesReply)
      → check_entries gob args t rf ≡ some (rf', reply)
      → (rf'.log ≡ rf.log) ⊎ Accepts args rf rf'
  unfolding check_entries is_consistent
  check_entries_log args t rf rf' reply h = ground (arith, accept_entries_log args t rf rf' reply)

  adopted_term_at :
      (args : AppendEntriesArgs C) (t : Tick) (rf : Raft C) (j : ℕ)
      → term_at (adopt_leader_term gob args.term t rf) j ≡ term_at rf j
  unfolding term_at entry_at adopt_leader_term
  adopted_term_at args t rf j = ground arith

  -- A run of AppendEntries that writes the log makes the peer a follower, and writes behind an entry
  -- that has the term of the leader's.
  pub append_entries-Accepts :
      (args : AppendEntriesArgs C) (t u : Tick) (rf rf' : Raft C) (reply : AppendEntriesReply)
      → append_entries gob args t u rf ≡ some (rf', reply)
      → (rf'.log ≡ rf.log) ⊎ Accepts args rf rf'
  unfolding append_entries adopt_leader_term
  append_entries-Accepts args t u rf rf' reply h = ground (
    arith,
    check_entries_log args u rf rf' reply,
    check_entries_log args u (adopt_leader_term gob args.term t rf) rf' reply,
    adopted_term_at args t rf args.prev_log_index,
  )

  pub append_entries_base :
      (args : AppendEntriesArgs C) (t u : Tick) (rf rf' : Raft C) (reply : AppendEntriesReply)
      → append_entries gob args t u rf ≡ some (rf', reply)
      → rf'.last_included_index ≡ rf.last_included_index
  unfolding append_entries adopt_leader_term
  append_entries_base args t u rf rf' reply h = ground (
    arith,
    check_entries-Accepted gob args u rf rf' reply,
    check_entries-Accepted gob args u (adopt_leader_term gob args.term t rf) rf' reply,
  )
