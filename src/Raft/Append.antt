-- ===== src/Raft/Append.antt =====
-- raft.go: the handler AppendEntries.
pub mod Frame
pub mod Agree
pub mod Written
pub mod Differs
pub mod Total
pub mod Reply
use mit.Prelude.{
  ℕ, zero, suc, ◌+◌, ◌-◌, Bool, true, false, Option, none, some, List, [], ◌∷◌, ◌++◌, ltb, leb,
  ◌==◌, if◌then◌else◌, length, get_elem?, slice, min, ◌>>=◌,
}
use mit.Raft.Types.{
  LogEntry, follower, apply_cond, Raft, Tick, AppendEntriesArgs, AppendEntriesReply,
}
use mit.Raft.Gob.{Gob}
use mit.Raft.Local.{
  add_snapshot_index, sub_snapshot_index, last_log_index, term_at, switch_to, reset_election_timer,
  persist,
}

-- The loop that lowers ConflictFirstIndex while the entry before it has the term `t`, in offsets
-- into the log: LastIncludedIndex is added back by the caller.
unfoldable pub conflict_start : {C : Type 0} → List (LogEntry C) → ℕ → ℕ → Option ℕ
conflict_start log t zero = some 0
conflict_start log t (suc k) =
    let rest = conflict_start log t k in
    (do e ← get_elem? log k; if e.term == t then rest else some (suc k))

-- `var reply` of the caller, which the handler gets by reference
abbrev pub zero_reply : AppendEntriesReply
zero_reply = record { term = 0; conflict_term = 0; conflict_first_index = 0; success = false }

module _ {C : Type 0} where
  -- The loop of step 1: does the log hold all entries, from `next` on?
  unfoldable pub is_match : Raft C → ℕ → List (LogEntry C) → Option Bool
  unfolding last_log_index term_at
  is_match rf next [] = some true
  is_match rf next (e ∷ es) =
      let rest = is_match rf (suc next) es in
      if ltb (last_log_index rf) next
      then some false
      else (do t ← term_at rf next; if t == e.term then rest else some false)

  -- Step 2: rf.Log = append(rf.Log[:rf.subSnapshotIndex(nextIndex)], entries...). The check before has found
  -- an entry in front of nextIndex, so the slice does not pass the length.
  unfoldable pub replace_from : Raft C → ℕ → List (LogEntry C) → Option (Raft C)
  unfolding sub_snapshot_index slice
  replace_from rf next es = do
    k ← sub_snapshot_index rf next
    kept ← slice rf.log 0 k
    some (record rf { log = kept ++ es })

  -- Steps 1 and 2.
  unfoldable pub store_entries : AppendEntriesArgs C → Raft C → Option (Raft C)
  unfolding is_match replace_from
  store_entries args rf = do
    matched ← is_match rf (args.prev_log_index + 1) args.entries
    if matched then some rf else replace_from rf (args.prev_log_index + 1) args.entries

  unfoldable pub advance_commit : ℕ → Raft C → Raft C
  unfolding add_snapshot_index
  advance_commit leader_commit rf =
      if ltb rf.commit_index leader_commit
      then record rf {
        commit_index = min leader_commit (add_snapshot_index rf (length rf.log - 1));
        signals = rf.signals ++ apply_cond ∷ [];
      }
      else rf

  -- The branch for a consistency check that fails, up to the reply's conflict fields.
  unfoldable pub conflict_reply : AppendEntriesArgs C → Raft C → Option AppendEntriesReply
  unfolding add_snapshot_index sub_snapshot_index term_at conflict_start
  conflict_reply args rf =
      if ltb (add_snapshot_index rf (length rf.log)) (args.prev_log_index + 1)
      then some (record {
        term = rf.current_term;
        conflict_term = 0;
        conflict_first_index = add_snapshot_index rf (length rf.log);
        success = false;
      })
      else (do
        t ← term_at rf args.prev_log_index
        p ← sub_snapshot_index rf args.prev_log_index
        k ← conflict_start rf.log t p
        some (record {
          term = rf.current_term;
          conflict_term = t;
          conflict_first_index = add_snapshot_index rf k;
          success = false;
        }))

module _ {C : Type 0} (gob : Gob C) where
  -- A term above the own: as in RequestVote, with the election timer reset.
  unfoldable pub adopt_leader_term : ℕ → Tick → Raft C → Raft C
  unfolding reset_election_timer switch_to persist
  adopt_leader_term t tick rf = persist gob (
      switch_to follower
        (record (reset_election_timer tick (record rf { current_term = t })) { vote_for = none }))

  -- The branch for a consistency check that holds, after the log is written.
  unfoldable pub finish_append : AppendEntriesArgs C → Tick → Raft C → Raft C × AppendEntriesReply
  unfolding advance_commit reset_election_timer persist
  finish_append args tick rf =
      let rf₁ = reset_election_timer tick (advance_commit args.leader_commit rf) in
      (
        persist gob (record rf₁ { leader_id = some args.leader_id }),
        record zero_reply { term = rf₁.current_term; success = true },
      )

  -- The whole of that branch.
  unfoldable pub accept_entries :
      AppendEntriesArgs C → Tick → Raft C → Option (Raft C × AppendEntriesReply)
  accept_entries args tick rf = do
    rf₁ ← store_entries args (switch_to follower rf)
    some (finish_append args tick rf₁)

  -- rf.addSnapshotIndex(len(rf.Log)) > args.PrevLogIndex && rf.Log[...].Term == args.PrevLogTerm
  unfoldable pub is_consistent : AppendEntriesArgs C → Raft C → Option Bool
  unfolding add_snapshot_index term_at
  is_consistent args rf =
      if ltb args.prev_log_index (add_snapshot_index rf (length rf.log))
      then (do t ← term_at rf args.prev_log_index; some (t == args.prev_log_term))
      else some false

  -- What follows once the term is up to date. The two early returns leave the reply's term at 0.
  unfoldable pub check_entries :
      AppendEntriesArgs C → Tick → Raft C → Option (Raft C × AppendEntriesReply)
  unfolding last_log_index
  check_entries args tick rf =
      if ltb args.prev_log_index rf.last_included_index
      then some (rf, record zero_reply { conflict_first_index = rf.last_included_index + 1 })
      else if ltb (last_log_index rf) args.prev_log_index
      then some (rf, record zero_reply { conflict_first_index = last_log_index rf + 1 })
      else (do
        consistent ← is_consistent args rf
        if consistent
            then accept_entries args tick rf
            else (do reply ← conflict_reply args rf; some (rf, reply)))

  -- The handler AppendEntries. Each of the two resets of the election timer has its own tick.
  unfoldable pub append_entries :
      AppendEntriesArgs C → Tick → Tick → Raft C → Option (Raft C × AppendEntriesReply)
  append_entries args tick₁ tick₂ rf =
      if leb rf.current_term args.term
      then if ltb rf.current_term args.term
        then check_entries args tick₂ (adopt_leader_term args.term tick₁ rf)
        else check_entries args tick₂ rf
      else some (rf, record zero_reply { term = rf.current_term })
