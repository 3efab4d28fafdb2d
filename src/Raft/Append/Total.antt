-- ===== src/Raft/Append/Total.antt =====
-- AppendEntries never panics on a log with its placeholder.
use mit.Prelude.{
  ℕ, zero, suc, ◌+◌, ◌-◌, ◌≡◌, ◌≢◌, ◌≤◌, ◌<◌, none, some, List, [], ◌∷◌, arith, length,
  get_elem?_lt,
}
use native.Mathlib.Decide.{dec_lt}
use mit.Raft.Types.{follower, Raft, LogEntry, Tick, AppendEntriesArgs}
use mit.Raft.Gob.{Gob}
use mit.Raft.Local.{term_at, last_log_index, switch_to}
use mit.Raft.Append.{
  conflict_start, is_match, replace_from, store_entries, conflict_reply, is_consistent,
  accept_entries, check_entries, adopt_leader_term, append_entries,
}

module _ {C : Type 0} where
  pub conflict_start_total :
      (log : List (LogEntry C)) (t k : ℕ) → k ≤ length log → conflict_start log t k ≢ none
  unfolding conflict_start
  conflict_start_total log t zero h = ground arith
  conflict_start_total log t (suc k) h =
      let (e, q) = get_elem?_lt log k (omega arith) in ground (arith, conflict_start_total log t k)

  pub term_at_total :
      (rf : Raft C) (j : ℕ)
      → rf.last_included_index ≤ j
      → j < rf.last_included_index + length rf.log
      → (t : ℕ) × (term_at rf j ≡ some t)
  unfolding term_at
  term_at_total rf j lo hi =
      let (e, q) = get_elem?_lt rf.log (j - rf.last_included_index) (omega arith) in
      (e.term, ground arith)

  is_match_total :
      (rf : Raft C) (next : ℕ) (es : List (LogEntry C))
      → 0 < length rf.log
      → rf.last_included_index ≤ next
      → is_match rf next es ≢ none
  unfolding is_match last_log_index
  is_match_total rf next [] h lo = ground arith
  is_match_total rf next (e ∷ es) h lo =
      elim (dec_lt next (rf.last_included_index + length rf.log)) [
        | yes inside ↦
            let (t, q) = term_at_total rf next lo inside in
            ground (arith, is_match_total rf (suc next) es)
        | no outside ↦ ground arith
      ]

  replace_from_total :
      (rf : Raft C) (next : ℕ) (es : List (LogEntry C))
      → rf.last_included_index ≤ next
      → next ≤ rf.last_included_index + length rf.log
      → replace_from rf next es ≢ none
  unfolding replace_from
  replace_from_total rf next es lo hi = ground arith

  store_entries_total :
      (args : AppendEntriesArgs C) (rf : Raft C)
      → rf.last_included_index ≤ args.prev_log_index
      → args.prev_log_index < rf.last_included_index + length rf.log
      → store_entries args rf ≢ none
  unfolding store_entries
  store_entries_total args rf lo hi = ground (
    arith,
    is_match_total rf (args.prev_log_index + 1) args.entries,
    replace_from_total rf (args.prev_log_index + 1) args.entries,
  )

  conflict_reply_total :
      (args : AppendEntriesArgs C) (rf : Raft C)
      → rf.last_included_index ≤ args.prev_log_index
      → args.prev_log_index < rf.last_included_index + length rf.log
      → conflict_reply args rf ≢ none
  unfolding conflict_reply
  conflict_reply_total args rf lo hi =
      let (t, q) = term_at_total rf args.prev_log_index lo hi in
      ground (arith, conflict_start_total rf.log t (args.prev_log_index - rf.last_included_index))

module _ {C : Type 0} (gob : Gob C) where
  check_entries_total :
      (args : AppendEntriesArgs C) (t : Tick) (rf : Raft C)
      → 0 < length rf.log
      → check_entries gob args t rf ≢ none
  unfolding check_entries accept_entries is_consistent switch_to last_log_index
  check_entries_total args t rf h = elim (dec_lt args.prev_log_index rf.last_included_index) [
    | yes compacted ↦ ground arith
    | no above ↦ elim (dec_lt args.prev_log_index (rf.last_included_index + length rf.log)) [
      | yes inside ↦
          let (prev_term, q) = term_at_total rf args.prev_log_index (omega arith) inside in
          ground
            (arith, store_entries_total args (switch_to follower rf), conflict_reply_total args rf)
      | no beyond ↦ ground arith
    ]
  ]

  -- AppendEntries never panics on a log with its placeholder, whatever the request.
  pub append_entries_total :
      (args : AppendEntriesArgs C) (t u : Tick) (rf : Raft C)
      → 0 < length rf.log
      → append_entries gob args t u rf ≢ none
  unfolding append_entries adopt_leader_term
  append_entries_total args t u rf h = ground (
    arith,
    check_entries_total args u rf,
    check_entries_total args u (adopt_leader_term gob args.term t rf),
  )
