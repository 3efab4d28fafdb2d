-- ===== src/Lab2/Replicate.antt =====
-- Lab2_Raft/Part2C/raft.go: broadcastAppendEntries, one locked section at a time, and getNextIndex.
use mit.Prelude.{
  ℕ, zero, suc, ◌+◌, ◌-◌, Bool, true, ◌&&◌, not, Option, none, some, List, [], ◌∷◌, ◌++◌, ltb, leb,
  ◌==◌, if◌then◌else◌, get_elem?, set, slice, ◌>>=◌,
}
use mit.Raft.Types.{apply_cond, AppendEntriesReply}
use mit.Raft.Vote.{majority}
use mit.Raft.Replicate.{Round, Outcome, done, retry, heartbeat}
use mit.Lab2.Peer.{LogEntry, Raft, AppendEntriesArgs, StateGob, is_leader, term_at}
use mit.Lab2.Election.{is_current, adopt_term}

-- The first loop of getNextIndex, downwards from `conflictIndex`; it does not look at index 0.
unfoldable pub scan_back : {C : Type 0} → List (LogEntry C) → ℕ → ℕ → Option ℕ
scan_back log t zero = some 0
scan_back log t (suc k) =
    let rest = scan_back log t k in
    (do e ← get_elem? log (suc k); if e.term == t then some (suc k) else rest)

-- The second loop, upwards, with the count of its rounds: `n` is conflictIndex + 1.
unfoldable pub scan_forward : {C : Type 0} → List (LogEntry C) → ℕ → ℕ → ℕ → Option ℕ
scan_forward log t zero n = some n
scan_forward log t (suc rounds) n =
    let rest = scan_forward log t rounds (suc n) in
    (do e ← get_elem? log n; if e.term == t then rest else some n)

module _ {C : Type 0} where
  -- The tests before each send: still the leader, still in the term of the broadcast.
  unfoldable pub may_send : ℕ → Raft C → Bool
  unfolding is_leader is_current
  may_send term rf = is_leader rf && is_current term rf

  -- rf.Log[nextIndex : index+1], where the array has `spare` behind the log.
  unfoldable pub entries_between : List (LogEntry C) → Raft C → ℕ → ℕ → Option (List (LogEntry C))
  unfolding slice
  entries_between spare rf next index =
      if ltb next (index + 1) then slice (rf.log ++ spare) next (index + 1) else some []

  -- The arguments with the entry before `next`; rf.Log[-1] panics.
  unfoldable pub append_args :
      List (LogEntry C) → ℕ → ℕ → ℕ → Raft C → ℕ → Option (AppendEntriesArgs C)
  unfolding entries_between term_at
  append_args spare index term commit rf zero = none
  append_args spare index term commit rf (suc prev) = do
    prev_term ← term_at rf prev
    es ← entries_between spare rf (suc prev) index
    some (record {
      term = term;
      leader_id = rf.me;
      prev_log_index = prev;
      prev_log_term = prev_term;
      entries = es;
      leader_commit = commit;
    })

  -- The section that builds the arguments for peer `i`, with the nextIndex that it uses.
  unfoldable pub prepare :
      List (LogEntry C) → ℕ → ℕ → ℕ → ℕ → Raft C → Option (AppendEntriesArgs C × ℕ)
  unfolding append_args
  prepare spare index term commit i rf = do
    next ← get_elem? rf.next_index i
    args ← append_args spare index term commit rf next
    some (args, next)

  -- The branch of getNextIndex that scans the log.
  unfoldable pub scan : AppendEntriesReply → ℕ → Raft C → Option ℕ
  unfolding scan_back scan_forward
  scan reply next rf = do
    c ← scan_back rf.log reply.conflict_term reply.conflict_first_index
    if not (c == 0)
        then scan_forward rf.log reply.conflict_term (next - (c + 1)) (c + 1)
        else some reply.conflict_first_index

  -- getNextIndex
  unfoldable pub get_next_index : AppendEntriesReply → ℕ → Raft C → Option ℕ
  unfolding scan term_at
  get_next_index reply next rf =
      if reply.conflict_term == 0 then some reply.conflict_first_index else (do
        t ← term_at rf reply.conflict_first_index
        if leb reply.conflict_term t then scan reply next rf else some reply.conflict_first_index)

  -- The commit rule of the success branch.
  unfoldable pub try_commit : ℕ → Raft C → Option (Raft C × Outcome)
  unfolding term_at
  try_commit index rf =
      if ltb rf.commit_index index
      then (do
        t ← term_at rf index
        if t == rf.current_term
            then some (
              record rf { commit_index = index; signals = rf.signals ++ apply_cond ∷ [] },
              heartbeat,
            )
            else some (rf, done))
      else some (rf, done)

  unfoldable pub note_replicated : ℕ → ℕ → Raft C → Option (Raft C)
  note_replicated i index rf = do
    next ← get_elem? rf.next_index i
    if ltb next (index + 1)
        then some (record rf {
          next_index = set rf.next_index i (index + 1);
          match_index = set rf.match_index i index;
        })
        else some rf

  -- The success branch.
  unfoldable pub handle_success : ℕ → ℕ → Round → Raft C → Option (Raft C × Round × Outcome)
  unfolding note_replicated try_commit is_leader majority
  handle_success i index r rf = do
    rf₁ ← note_replicated i index rf
    let n = r.n_replica + 1
    if not r.is_agree && (is_leader rf₁ && leb (majority rf₁.peers) n)
        then (do
          (rf₂, o) ← try_commit index rf₁
          some (rf₂, record { n_replica = n; is_agree = true }, o))
        else some (rf₁, record r { n_replica = n }, done)

  -- The argument rf.Log[nextIndex-1].Term of the last DPrintf of the refusal branch.
  unfoldable printed_term : Raft C → ℕ → Option ℕ
  unfolding term_at
  printed_term rf zero = none
  printed_term rf (suc prev) = term_at rf prev

module _ {C : Type 0} (gob : StateGob C) where
  -- The refusal branch.
  unfoldable pub handle_refusal :
      ℕ → AppendEntriesArgs C → ℕ → AppendEntriesReply → Raft C → Option (Raft C × Outcome)
  unfolding adopt_term get_next_index printed_term
  handle_refusal i args next reply rf =
      if ltb args.term reply.term then some (adopt_term gob reply.term rf, done) else (do
        n ← get_next_index reply next rf
        t ← printed_term rf n
        some (record rf { next_index = set rf.next_index i n }, retry))
