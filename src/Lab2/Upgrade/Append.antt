-- ===== src/Lab2/Upgrade/Append.antt =====
-- The parts of AppendEntries in both stages.
use mit.Prelude.{
  ℕ, suc, zero, ◌+◌, ◌≡◌, ◌≢◌, refl, ◌<◌, ◌≤◌, none, some, arith, length, List, [], ◌∷◌, map, take,
  length-append, length-take, true, false, slice,
}
use mit.Raft.Types.{LogEntry, Raft, AppendEntriesArgs, AppendEntriesReply}
use mit.Raft.Gob.{Gob}
use mit.Raft.Local
use mit.Raft.Local.{last_log_index, add_snapshot_index, sub_snapshot_index, switch_to, term_at}
use mit.Raft.Append.{
  conflict_start, is_match, replace_from, store_entries, conflict_reply, is_consistent,
}
use mit.Lab2.Peer
use mit.Lab2.Append
use mit.Lab2.Upgrade.{
  Alike, Alike-length, Alike-term_at, forget, get_elem?-map, map-append, map-take,
}

module _ {C : Type 0} where
  abbrev pub forget_args : AppendEntriesArgs C → Peer.AppendEntriesArgs C
  forget_args args = record {
    term = args.term;
    leader_id = args.leader_id;
    prev_log_index = args.prev_log_index;
    prev_log_term = args.prev_log_term;
    entries = map forget args.entries;
    leader_commit = args.leader_commit;
  }

  conflict_start_alike :
      (l : List (LogEntry C)) (t k : ℕ)
      → Append.conflict_start (map forget l) t k ≡ conflict_start l t k
  unfolding conflict_start Append.conflict_start
  conflict_start_alike l t zero = refl
  conflict_start_alike l t (suc k) = ground (arith, conflict_start_alike l t k, get_elem?-map l k)

  module _ (old : Peer.Raft C) (rf : Raft C) (a : Alike old rf) where
    is_match_alike :
        (next : ℕ) (es : List (LogEntry C))
        → Append.is_match old next (map forget es) ≡ is_match rf next es
    unfolding is_match Append.is_match last_log_index
    is_match_alike next [] = refl
    is_match_alike next (e ∷ es) = ground (
      arith,
      is_match_alike (suc next) es,
      Alike-length old rf a,
      Alike-term_at old rf next a,
      a.base,
    )

    is_match_long :
        (next : ℕ) (es : List (LogEntry C))
        → 0 < length rf.log
        → next ≤ length rf.log
        → is_match rf next es ≡ some true
        → next + length es ≤ length rf.log
    unfolding is_match last_log_index
    is_match_long next [] f le h = omega arith
    is_match_long next (e ∷ es) f le h = ground (arith, a.base, is_match_long (suc next) es)

    pub store_entries_agrees :
        (args : AppendEntriesArgs C) (old' : Peer.Raft C) (rf' : Raft C)
        → args.prev_log_index < length rf.log
        → store_entries args rf ≡ some rf'
        → Append.store_entries (forget_args args) old ≡ some old'
        → Alike old' rf' × (args.prev_log_index + length args.entries + 1 ≤ length rf'.log)
    unfolding store_entries Append.store_entries replace_from Append.replace_from slice
        sub_snapshot_index
    store_entries_agrees args old' rf' lt h h' =
        let matched = is_match_alike (args.prev_log_index + 1) args.entries in
        let long = is_match_long (args.prev_log_index + 1) args.entries in
        let took = map-take (args.prev_log_index + 1) rf.log in
        let joined = map-append (take (args.prev_log_index + 1) rf.log) args.entries in
        (
          ground (arith, matched, took, joined, a, Alike-length old rf a),
          ground (
            arith,
            a.base,
            long,
            length-append {0} (take (args.prev_log_index + 1) rf.log) args.entries,
            length-take {0} (args.prev_log_index + 1) rf.log,
          ),
        )

    pub is_consistent_alike :
        (gob : Gob C) (args : AppendEntriesArgs C)
        → Append.is_consistent (forget_args args) old ≡ is_consistent gob args rf
    unfolding is_consistent Append.is_consistent
    is_consistent_alike gob args =
        ground (arith, a.base, Alike-length old rf a, Alike-term_at old rf args.prev_log_index a)

    pub conflict_reply_agrees :
        (args : AppendEntriesArgs C) (r r' : AppendEntriesReply)
        → conflict_reply args rf ≡ some r
        → Append.conflict_reply (forget_args args) old ≡ some r'
        → r' ≡ r
    unfolding conflict_reply Append.conflict_reply add_snapshot_index
    conflict_reply_agrees args r r' h h' =
        elim (Local.term_at rf args.prev_log_index)
            as (λ m. Local.term_at rf args.prev_log_index ≡ m → r' ≡ r) [
              | none ↦ λ e. ground (
                arith,
                a.base,
                a.log,
                a.current_term,
                Alike-length old rf a,
                Alike-term_at old rf args.prev_log_index a,
              )
              | some t ↦ λ e. ground (
                arith,
                a.base,
                a.log,
                a.current_term,
                Alike-length old rf a,
                Alike-term_at old rf args.prev_log_index a,
                conflict_start_alike rf.log t args.prev_log_index,
              )
            ]
          refl

    pub store_entries_returns :
        (args : AppendEntriesArgs C) (rf' : Raft C)
        → store_entries args rf ≡ some rf'
        → Append.store_entries (forget_args args) old ≢ none
    unfolding store_entries Append.store_entries replace_from Append.replace_from slice
        sub_snapshot_index
    store_entries_returns args rf' h =
        ground
          (arith, a, Alike-length old rf a, is_match_alike (args.prev_log_index + 1) args.entries)

    pub conflict_reply_returns :
        (args : AppendEntriesArgs C) (r : AppendEntriesReply)
        → conflict_reply args rf ≡ some r
        → Append.conflict_reply (forget_args args) old ≢ none
    unfolding conflict_reply Append.conflict_reply add_snapshot_index
    conflict_reply_returns args r h =
        elim (Local.term_at rf args.prev_log_index)
            as (λ m.
              Local.term_at rf args.prev_log_index ≡ m
              → Append.conflict_reply (forget_args args) old ≢ none) [
                | none ↦ λ e. ground (
                  arith,
                  a.base,
                  a.log,
                  a.current_term,
                  Alike-length old rf a,
                  Alike-term_at old rf args.prev_log_index a,
                )
                | some t ↦ λ e. ground (
                  arith,
                  a.base,
                  a.log,
                  a.current_term,
                  Alike-length old rf a,
                  Alike-term_at old rf args.prev_log_index a,
                  conflict_start_alike rf.log t args.prev_log_index,
                )
              ]
          refl

    pub conflict_reply_short :
        (args : AppendEntriesArgs C)
        → length rf.log ≤ args.prev_log_index
        → Append.conflict_reply (forget_args args) old
          ≡ some (record {
            term = rf.current_term;
            conflict_term = 0;
            conflict_first_index = length rf.log;
            success = false;
          })
    unfolding Append.conflict_reply
    conflict_reply_short args le = ground (arith, Alike-length old rf a, a.current_term)

    pub is_consistent_short :
        (args : AppendEntriesArgs C)
        → length rf.log ≤ args.prev_log_index
        → Append.is_consistent (forget_args args) old ≡ some false
    unfolding Append.is_consistent
    is_consistent_short args le = ground (arith, Alike-length old rf a)
