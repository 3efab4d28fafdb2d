-- ===== src/Raft/Replicate/Retry.antt =====
-- The retry loop of broadcastAppendEntries: a refused leader turns to an earlier entry.
use mit.Prelude.{
  ℕ, zero, suc, ◌+◌, ◌-◌, ◌≡◌, ◌≢◌, ◌≤◌, ◌<◌, some, List, arith, get_elem?, Option-cases, inl, inr,
}
use mit.Raft.Types.{Raft, LogEntry, AppendEntriesReply}
use mit.Raft.Local.{term_at}
use mit.Raft.Replicate.{scan_back, scan_forward, scan, get_next_index}

module _ {C : Type 0} where
  scan_back-le : (log : List (LogEntry C)) (t k n : ℕ) → scan_back log t k ≡ some n → n ≤ k
  unfolding scan_back
  scan_back-le log t zero n h = ground arith
  scan_back-le log t (suc k) n h = ground (arith, scan_back-le log t k n)

  -- The scan ends where it begins only at an entry of the term.
  scan_back_hit :
      (log : List (LogEntry C)) (t k n : ℕ) (e : LogEntry C)
      → scan_back log t (suc k) ≡ some n
      → n ≡ suc k
      → get_elem? log k ≡ some e
      → e.term ≡ t
  unfolding scan_back
  scan_back_hit log t k n e h top q = ground (arith, scan_back-le log t k n)

  -- The scan upwards does not pass an entry of another term.
  scan_forward-lt :
      (log : List (LogEntry C)) (t rounds n m stop : ℕ) (e : LogEntry C)
      → scan_forward log t rounds n ≡ some m
      → get_elem? log stop ≡ some e
      → e.term ≢ t
      → n ≤ stop
      → stop < n + rounds
      → m ≤ stop
  unfolding scan_forward
  scan_forward-lt log t zero n m stop e h q ne le lt = omega arith
  scan_forward-lt log t (suc rounds) n m stop e h q ne le lt =
      ground (arith, scan_forward-lt log t rounds (suc n) m stop e)

  scan-lt :
      (reply : AppendEntriesReply) (next n : ℕ) (rf : Raft C) (e : LogEntry C)
      → reply.conflict_first_index < next
      → rf.last_included_index ≤ reply.conflict_first_index
      → get_elem? rf.log (next - 1 - rf.last_included_index) ≡ some e
      → e.term ≢ reply.conflict_term
      → scan reply next rf ≡ some n
      → n < next
  unfolding scan
  scan-lt reply next n rf e below above q ne h =
      let t = reply.conflict_term in
      let p = reply.conflict_first_index - rf.last_included_index in
      elim (Option-cases (scan_back rf.log t (suc p))) [
        | inl panic ↦ absurd (ground arith)
        | inr (k, back) ↦
            elim (Option-cases (scan_forward rf.log t (next - (rf.last_included_index + k)) k)) [
              | inl panic ↦ ground arith
              | inr (m, forward) ↦ ground (
                arith,
                scan_back-le rf.log t (suc p) k,
                scan_back_hit rf.log t p k e,
                scan_forward-lt rf.log t (next - (rf.last_included_index + k)) k m
                    (next - 1 - rf.last_included_index) e,
              )
            ]
      ]

  term_at_entry :
      (rf : Raft C) (j t : ℕ)
      → rf.last_included_index ≤ j
      → term_at rf j ≡ some t
      → (e : LogEntry C) × (get_elem? rf.log (j - rf.last_included_index) ≡ some e) × (e.term ≡ t)
  unfolding term_at
  term_at_entry rf j t le h = elim (Option-cases (get_elem? rf.log (j - rf.last_included_index))) [
    | inl missing ↦ absurd (ground arith)
    | inr (e, q) ↦ (e, q, ground arith)
  ]

  -- A refusal that names a conflict below the next index and not below the leader's snapshot, to a
  -- leader whose entry before the next index has another term than the conflict, moves the next
  -- index back.
  pub retry_moves_back :
      (reply : AppendEntriesReply) (next n : ℕ) (rf : Raft C) (prev_term : ℕ)
      → reply.conflict_first_index < next
      → rf.last_included_index ≤ reply.conflict_first_index
      → term_at rf (next - 1) ≡ some prev_term
      → prev_term ≢ reply.conflict_term
      → get_next_index reply next rf ≡ some n
      → n < next
  unfolding get_next_index
  retry_moves_back reply next n rf prev_term below above q ne h =
      let (e, at, same) = term_at_entry rf (next - 1) prev_term (omega arith) q in
      ground (arith, scan-lt reply next n rf e)
