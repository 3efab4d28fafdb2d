-- ===== src/Raft/Replicate/Commit.antt =====
-- What the leader sends, and when it commits.
use mit.Prelude.{
  ℕ, ◌+◌, ◌-◌, ◌*◌, ◌≡◌, ◌≢◌, ◌≤◌, ◌<◌, some, List, arith, get_elem?, length, take, get_elem?-drop,
  ◌++◌, get_elem?-append_left, get_elem?-take, length-drop, length-take,
}
use mit.Raft.Types.{leader, Raft, LogEntry, AppendEntriesArgs}
use mit.Raft.Local.{entry_at, term_at}
use mit.Raft.Replicate.{append, Round, Outcome, entries_between, prepare, handle_success}

module _ {C : Type 0} where
  record Between (rf : Raft C) (next index : ℕ) (es : List (LogEntry C)) : Type 0 where
    count : length es ≡ index + 1 - next
    same :
        index < rf.last_included_index + length rf.log
        → (k : ℕ) → next + k ≤ index
        → get_elem? es k ≡ entry_at rf (next + k)

  entries_between-Between :
      (spare : List (LogEntry C)) (rf : Raft C) (next index : ℕ) (es : List (LogEntry C))
      → entries_between spare rf next index ≡ some es
      → Between rf next index es
  unfolding entries_between entry_at
  entries_between-Between spare rf next index es h = record {
    count = ground (
      arith,
      length-take (index + 1 - rf.last_included_index) (rf.log ++ spare),
      length-drop (next - rf.last_included_index)
          (take (index + 1 - rf.last_included_index) (rf.log ++ spare)),
    );
    same = λ inside k le. ground (
      arith,
      get_elem?-append_left rf.log spare (next - rf.last_included_index + k),
      get_elem?-drop (next - rf.last_included_index)
          (take (index + 1 - rf.last_included_index) (rf.log ++ spare)) k,
      get_elem?-take (index + 1 - rf.last_included_index) (rf.log ++ spare)
          (next - rf.last_included_index + k),
    );
  }

  -- What goes to a peer whose next index is above the snapshot: the request names the entry before
  -- the next index by its index and term, and carries the log from the next index up to `index` if it
  -- reaches that far.
  pub prepare_sends_log :
      (spare : List (LogEntry C)) (index term commit i next : ℕ) (rf : Raft C)
      (args : AppendEntriesArgs C)
      → prepare spare index term commit i rf ≡ some (append args next)
      → (rf.last_included_index < next)
        × (get_elem? rf.next_index i ≡ some next)
        × (args.prev_log_index + 1 ≡ next)
        × (term_at rf args.prev_log_index ≡ some args.prev_log_term)
        × (args.leader_commit ≡ commit)
        × (args.term ≡ term)
        × (length args.entries ≡ index + 1 - next)
        × (index < rf.last_included_index + length rf.log
            → (k : ℕ) → next + k ≤ index
            → get_elem? args.entries k ≡ entry_at rf (next + k))
  unfolding prepare
  prepare_sends_log spare index term commit i next rf args h =
      let b : Between rf next index args.entries =
        entries_between-Between spare rf next index args.entries (ground arith) in
      (
        ground arith,
        ground arith,
        ground arith,
        ground arith,
        ground arith,
        ground arith,
        b.count,
        b.same,
      )

  -- The leader commits by a reply only an entry above its commit index, of its own current term, and
  -- with a majority of the peers counted; then it commits up to that entry.
  pub commit_rule :
      (i index : ℕ) (r r' : Round) (o : Outcome) (rf rf' : Raft C)
      → handle_success i index r rf ≡ some (rf', r', o)
      → rf'.commit_index ≢ rf.commit_index
      → (rf.state ≡ leader)
        × (rf.commit_index < index)
        × (rf'.commit_index ≡ index)
        × (term_at rf index ≡ some rf.current_term)
        × (rf.peers < 2 * (r.n_replica + 1))
  unfolding handle_success
  commit_rule i index r r' o rf rf' h ne = ground arith
