-- ===== src/Lab2/Bounds.antt =====
-- Where the commit index of Lab2_Raft/Part2C may be after AppendEntries.
use mit.Prelude.{
  ℕ, suc, ◌+◌, ◌≡◌, ◌≤◌, ◌<◌, min, ltb, if◌then◌else◌, some, true, arith, length, List, [], ◌∷◌,
  take, length-take, length-append, slice, >>=-eq-some,
}
use mit.Raft.Types.{follower, Tick, AppendEntriesReply}
use mit.Lab2.Peer.{LogEntry, Raft, AppendEntriesArgs, StateGob, switch_to}
use mit.Lab2.Append.{
  is_match, replace_from, store_entries, advance_commit, finish_append, accept_entries,
  is_consistent, check_entries, conflict_reply, adopt_leader_term, append_entries,
}

module _ {C : Type 0} where
  is_match_long :
      (rf : Raft C) (next : ℕ) (es : List (LogEntry C))
      → 0 < length rf.log
      → next ≤ length rf.log
      → is_match rf next es ≡ some true
      → next + length es ≤ length rf.log
  unfolding is_match
  is_match_long rf next [] f le h = omega arith
  is_match_long rf next (e ∷ es) f le h = ground (arith, is_match_long rf (suc next) es)

  store_entries_long :
      (args : AppendEntriesArgs C) (rf rf' : Raft C)
      → args.prev_log_index < length rf.log
      → store_entries args rf ≡ some rf'
      → (args.prev_log_index + length args.entries < length rf'.log)
        × (rf'.commit_index ≡ rf.commit_index)
  unfolding store_entries replace_from slice
  store_entries_long args rf rf' lt h = (
    ground (
      arith,
      is_match_long rf (args.prev_log_index + 1) args.entries,
      length-append {0} (take (args.prev_log_index + 1) rf.log) args.entries,
      length-take {0} (args.prev_log_index + 1) rf.log,
    ),
    ground arith,
  )

module _ {C : Type 0} (gob : StateGob C) where
  -- The commit index after a request that succeeds.
  record Within (args : AppendEntriesArgs C) (rf rf' : Raft C) : Type 0 where
    covered : args.prev_log_index + length args.entries < length rf'.log
    commit : rf'.commit_index ≡ (
        if ltb rf.commit_index args.leader_commit
        then min args.leader_commit (args.prev_log_index + length args.entries)
        else rf.commit_index)

  accept_entries-Within :
      (args : AppendEntriesArgs C) (t : Tick) (rf rf' : Raft C) (r : AppendEntriesReply)
      → args.prev_log_index < length rf.log
      → accept_entries gob args t rf ≡ some (rf', r)
      → Within args rf rf'
  unfolding accept_entries finish_append advance_commit switch_to
  accept_entries-Within args t rf rf' r lt h =
      let (rf₁, e, d) = >>=-eq-some (store_entries args (switch_to follower rf)) _ h in
      let (long, commit) = store_entries_long args (switch_to follower rf) rf₁ lt e in
      record { covered = ground (arith, long); commit = ground (arith, commit) }

  check_entries-Within :
      (args : AppendEntriesArgs C) (t : Tick) (rf rf' : Raft C) (r : AppendEntriesReply)
      → check_entries gob args t rf ≡ some (rf', r)
      → r.success ≡ true
      → Within args rf rf'
  unfolding check_entries is_consistent conflict_reply
  check_entries-Within args t rf rf' r h s = ground (arith, accept_entries-Within args t rf rf' r)

  -- After a request that succeeds, the log reaches the last entry of the request, and the commit index is
  -- the old one, or, if the leader has committed more, the lesser of the leader's and the last entry of
  -- the request.
  pub commit_within_request :
      (args : AppendEntriesArgs C) (t u : Tick) (rf rf' : Raft C) (r : AppendEntriesReply)
      → append_entries gob args t u rf ≡ some (rf', r)
      → r.success ≡ true
      → (args.prev_log_index + length args.entries < length rf'.log)
        × (rf'.commit_index ≡ (
            if ltb rf.commit_index args.leader_commit
            then min args.leader_commit (args.prev_log_index + length args.entries)
            else rf.commit_index))
  unfolding append_entries adopt_leader_term
  commit_within_request args t u rf rf' r h s =
      let same = check_entries-Within args u rf rf' r in
      let newer = check_entries-Within args u (adopt_leader_term gob args.term t rf) rf' r in
      (ground (arith, same, newer), ground (arith, same, newer))
