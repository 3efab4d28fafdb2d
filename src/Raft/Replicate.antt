-- ===== src/Raft/Replicate.antt =====
-- raft.go: broadcastAppendEntries, the leader's side of replication, one locked section at a time.
pub mod Retry
pub mod Commit
pub mod Unmatched
pub mod Stale
pub mod Below
use mit.Prelude.{
  ℕ, zero, suc, ◌+◌, ◌-◌, Bool, true, ◌&&◌, not, Option, some, List, [], ◌∷◌, ◌++◌, ltb, leb, ◌==◌,
  if◌then◌else◌, get_elem?, set, slice, ◌>>=◌,
}
use mit.Raft.Types.{
  LogEntry, Raft, apply_cond, AppendEntriesArgs, AppendEntriesReply, InstallSnapshotArgs,
}
use mit.Raft.Gob.{Gob}
use mit.Raft.Local.{is_leader, sub_snapshot_index, term_at}
use mit.Raft.Vote.{majority, is_current, adopt_term}

-- The first loop of getNextIndex, downwards. With `n` for conflictIndex + 1 in offsets, so that the
-- source's conflictIndex may go one below LastIncludedIndex.
unfoldable pub scan_back : {C : Type 0} → List (LogEntry C) → ℕ → ℕ → Option ℕ
scan_back log t zero = some 0
scan_back log t (suc k) =
    let rest = scan_back log t k in
    (do e ← get_elem? log k; if e.term == t then some (suc k) else rest)

-- The second loop, upwards, with the count of its rounds.
unfoldable pub scan_forward : {C : Type 0} → List (LogEntry C) → ℕ → ℕ → ℕ → Option ℕ
scan_forward log t zero n = some n
scan_forward log t (suc rounds) n =
    let rest = scan_forward log t rounds (suc n) in
    (do e ← get_elem? log n; if e.term == t then rest else some n)

-- What the goroutine for one peer sends.
pub data Message (C : Type 0) : Type 0 where
  append : AppendEntriesArgs C → ℕ → Message C  -- with the nextIndex that it was built from
  install : InstallSnapshotArgs → Message C

-- The variables that the goroutines of one broadcast share.
pub record Round : Type 0 where
  pub n_replica : ℕ
  pub is_agree : Bool

-- What a reply leads to.
pub data Outcome : Type 0 where
  done retry heartbeat : Outcome

module _ {C : Type 0} where
  -- The tests before each send: still the leader, still in the term of the broadcast.
  unfoldable pub may_send : ℕ → Raft C → Bool
  unfolding is_leader is_current
  may_send term rf = is_leader rf && is_current term rf

  -- The arguments that sendInstallSnapshot builds.
  unfoldable pub snapshot_args : Raft C → InstallSnapshotArgs
  snapshot_args rf = record {
    term = rf.current_term;
    leader_id = rf.me;
    last_included_index = rf.last_included_index;
    last_included_term = rf.last_included_term;
    snapshot_bytes = rf.persister.snapshot;
  }

  -- rf.Log[subSnapshotIndex(nextIndex) : subSnapshotIndex(index+1)]. The bounds may pass the length up to
  -- the capacity: `spare` is what the array has behind the log.
  unfoldable pub entries_between : List (LogEntry C) → Raft C → ℕ → ℕ → Option (List (LogEntry C))
  unfolding sub_snapshot_index slice
  entries_between spare rf next index =
      if ltb next (index + 1)
      then (do
        lo ← sub_snapshot_index rf next
        hi ← sub_snapshot_index rf (index + 1)
        slice (rf.log ++ spare) lo hi)
      else some []

  -- The section that builds the arguments for peer `i`; a nextIndex of 0 is never above
  -- LastIncludedIndex, so `- 1` is exact. The entries are those of the section, though the arguments share
  -- their array with the log until they are encoded.
  unfoldable pub prepare : List (LogEntry C) → ℕ → ℕ → ℕ → ℕ → Raft C → Option (Message C)
  unfolding snapshot_args entries_between term_at
  prepare spare index term commit i rf = do
    next ← get_elem? rf.next_index i
    if leb next rf.last_included_index then some (install (snapshot_args rf)) else (do
      prev_term ← term_at rf (next - 1)
      es ← entries_between spare rf next index
      some (
          append
            (record {
              term = term;
              leader_id = rf.me;
              prev_log_index = next - 1;
              prev_log_term = prev_term;
              entries = es;
              leader_commit = commit;
            })
            next))

  -- The branch of getNextIndex that scans the log.
  unfoldable pub scan : AppendEntriesReply → ℕ → Raft C → Option ℕ
  unfolding sub_snapshot_index scan_back scan_forward
  scan reply next rf = do
    p ← sub_snapshot_index rf reply.conflict_first_index
    n ← scan_back rf.log reply.conflict_term (suc p)
    if not (n == 1)
        then (do
          m ← scan_forward rf.log reply.conflict_term (next - (rf.last_included_index + n)) n
          some (rf.last_included_index + m))
        else some reply.conflict_first_index

  -- getNextIndex
  unfoldable pub get_next_index : AppendEntriesReply → ℕ → Raft C → Option ℕ
  unfolding scan term_at
  get_next_index reply next rf =
      if reply.conflict_term == 0 then some reply.conflict_first_index else (do
        t ← term_at rf reply.conflict_first_index
        if leb reply.conflict_term t then scan reply next rf else some reply.conflict_first_index)

  -- The commit rule of the success branch: only an entry of the current term is committed.
  unfoldable pub try_commit : ℕ → Raft C → Option (Raft C × Outcome)
  unfolding term_at
  try_commit index rf =
      if ltb rf.commit_index index
      then (do
        t ← term_at rf index
        if t == rf.current_term
            then some (
              record rf { commit_index = index; signals = rf.signals ++ apply_cond ∷ [] },
              heartbeat,
            )
            else some (rf, done))
      else some (rf, done)

  unfoldable pub note_replicated : ℕ → ℕ → Raft C → Option (Raft C)
  note_replicated i index rf = do
    next ← get_elem? rf.next_index i
    if ltb next (index + 1)
        then some (record rf {
          next_index = set rf.next_index i (index + 1);
          match_index = set rf.match_index i index;
        })
        else some rf

  -- The success branch.
  unfoldable pub handle_success : ℕ → ℕ → Round → Raft C → Option (Raft C × Round × Outcome)
  unfolding note_replicated try_commit is_leader majority
  handle_success i index r rf = do
    rf₁ ← note_replicated i index rf
    let n = r.n_replica + 1
    if not r.is_agree && (is_leader rf₁ && leb (majority rf₁.peers) n)
        then (do
          (rf₂, o) ← try_commit index rf₁
          some (rf₂, record { n_replica = n; is_agree = true }, o))
        else some (rf₁, record r { n_replica = n }, done)

module _ {C : Type 0} (gob : Gob C) where
  -- The refusal branch.
  unfoldable pub handle_refusal :
      ℕ → AppendEntriesArgs C → ℕ → AppendEntriesReply → Raft C → Option (Raft C × Outcome)
  unfolding adopt_term get_next_index
  handle_refusal i args next reply rf =
      if ltb args.term reply.term then some (adopt_term gob reply.term rf, done) else (do
        n ← get_next_index reply next rf
        some (record rf { next_index = set rf.next_index i n }, retry))
