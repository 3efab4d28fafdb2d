-- ===== src/Lab2/Append.antt =====
-- Lab2_Raft/Part2C/raft.go: the handler AppendEntries.
use mit.Prelude.{
  ℕ, zero, suc, ◌+◌, ◌-◌, Bool, true, false, Option, none, some, List, [], ◌∷◌, ◌++◌, ltb, leb,
  ◌==◌, if◌then◌else◌, length, get_elem?, slice, min, ◌>>=◌,
}
use mit.Raft.Types.{follower, apply_cond, Tick, AppendEntriesReply}
use mit.Raft.Append.{zero_reply}
use mit.Lab2.Peer.{
  LogEntry, Raft, AppendEntriesArgs, StateGob, term_at, switch_to, reset_election_timer, persist,
}

-- The loop that lowers ConflictFirstIndex while the entry before it has the term `t`.
unfoldable pub conflict_start : {C : Type 0} → List (LogEntry C) → ℕ → ℕ → Option ℕ
conflict_start log t zero = some 0
conflict_start log t (suc k) =
    let rest = conflict_start log t k in
    (do e ← get_elem? log k; if e.term == t then rest else some (suc k))

module _ {C : Type 0} where
  -- The loop of step 1: does the log hold all entries, from `next` on?
  unfoldable pub is_match : Raft C → ℕ → List (LogEntry C) → Option Bool
  unfolding term_at
  is_match rf next [] = some true
  is_match rf next (e ∷ es) =
      let rest = is_match rf (suc next) es in
      if ltb (length rf.log - 1) next
      then some false
      else (do t ← term_at rf next; if t == e.term then rest else some false)

  -- Step 2: rf.Log = append(rf.Log[:nextIndex], entries...). The check before has found an entry in front of
  -- nextIndex, so the slice does not pass the length.
  unfoldable pub replace_from : Raft C → ℕ → List (LogEntry C) → Option (Raft C)
  unfolding slice
  replace_from rf next es = do kept ← slice rf.log 0 next; some (record rf { log = kept ++ es })

  -- Steps 1 and 2.
  unfoldable pub store_entries : AppendEntriesArgs C → Raft C → Option (Raft C)
  unfolding is_match replace_from
  store_entries args rf = do
    matched ← is_match rf (args.prev_log_index + 1) args.entries
    if matched then some rf else replace_from rf (args.prev_log_index + 1) args.entries

  -- The commit index: the leader's, or the index of the last new entry if that is less.
  unfoldable pub advance_commit : AppendEntriesArgs C → Raft C → Raft C
  advance_commit args rf =
      if ltb rf.commit_index args.leader_commit
      then record rf {
        commit_index = min args.leader_commit (args.prev_log_index + length args.entries);
        signals = rf.signals ++ apply_cond ∷ [];
      }
      else rf

  -- The branch for a consistency check that fails, with the reply.
  unfoldable pub conflict_reply : AppendEntriesArgs C → Raft C → Option AppendEntriesReply
  unfolding term_at conflict_start
  conflict_reply args rf =
      if ltb (length rf.log) (args.prev_log_index + 1)
      then some (record {
        term = rf.current_term;
        conflict_term = 0;
        conflict_first_index = length rf.log;
        success = false;
      })
      else (do
        t ← term_at rf args.prev_log_index
        k ← conflict_start rf.log t args.prev_log_index
        some (record {
          term = rf.current_term;
          conflict_term = t;
          conflict_first_index = k;
          success = false;
        }))

  -- len(rf.Log) > args.PrevLogIndex && rf.Log[args.PrevLogIndex].Term == args.PrevLogTerm
  unfoldable pub is_consistent : AppendEntriesArgs C → Raft C → Option Bool
  unfolding term_at
  is_consistent args rf =
      if ltb args.prev_log_index (length rf.log)
      then (do t ← term_at rf args.prev_log_index; some (t == args.prev_log_term))
      else some false

module _ {C : Type 0} (gob : StateGob C) where
  -- A term above the own: as in RequestVote, with the election timer reset.
  unfoldable pub adopt_leader_term : ℕ → Tick → Raft C → Raft C
  unfolding reset_election_timer switch_to persist
  adopt_leader_term t tick rf = persist gob (
      switch_to follower
        (record (reset_election_timer tick (record rf { current_term = t })) { vote_for = none }))

  -- The branch for a consistency check that holds, after the log is written.
  unfoldable pub finish_append : AppendEntriesArgs C → Tick → Raft C → Raft C × AppendEntriesReply
  unfolding advance_commit reset_election_timer persist
  finish_append args tick rf =
      let rf₁ = reset_election_timer tick (advance_commit args rf) in
      (
        persist gob (record rf₁ { leader_id = some args.leader_id }),
        record zero_reply { term = rf₁.current_term; success = true },
      )

  -- The whole of that branch.
  unfoldable pub accept_entries :
      AppendEntriesArgs C → Tick → Raft C → Option (Raft C × AppendEntriesReply)
  unfolding store_entries finish_append switch_to
  accept_entries args tick rf = do
    rf₁ ← store_entries args (switch_to follower rf)
    some (finish_append args tick rf₁)

  -- What follows once the term is up to date.
  unfoldable pub check_entries :
      AppendEntriesArgs C → Tick → Raft C → Option (Raft C × AppendEntriesReply)
  unfolding is_consistent accept_entries conflict_reply
  check_entries args tick rf = do
    consistent ← is_consistent args rf
    if consistent
        then accept_entries args tick rf
        else (do reply ← conflict_reply args rf; some (rf, reply))

  -- The handler AppendEntries. Each of the two resets of the election timer has its own tick.
  unfoldable pub append_entries :
      AppendEntriesArgs C → Tick → Tick → Raft C → Option (Raft C × AppendEntriesReply)
  unfolding check_entries adopt_leader_term
  append_entries args tick₁ tick₂ rf =
      if leb rf.current_term args.term
      then if ltb rf.current_term args.term
        then check_entries args tick₂ (adopt_leader_term args.term tick₁ rf)
        else check_entries args tick₂ rf
      else some (rf, record zero_reply { term = rf.current_term })
