-- ===== src/Raft/Replicate/Unmatched.antt =====
-- A refusal that names a term of which the leader has no entry up to the conflict.
use mit.Prelude.{
  ℕ, zero, suc, ◌+◌, ◌-◌, ◌≡◌, ◌≢◌, refl, ◌≤◌, ◌<◌, some, List, [], ◌∷◌, arith, length, get_elem?,
  get_elem?_lt, get_elem?_le, set,
}
use mit.Raft.Types.{Raft, LogEntry, AppendEntriesArgs, AppendEntriesReply}
use mit.Raft.Gob.{Gob}
use mit.Raft.Local.{term_at}
use mit.Raft.Replicate.{
  Message, retry, scan_back, scan_forward, scan, snapshot_args, prepare, get_next_index,
  handle_refusal,
}

get_elem?-set :
    {A : Type 0} (xs : List A) (i : ℕ) (v : A) → i < length xs → get_elem? (set xs i v) i ≡ some v
get_elem?-set [] i v h = elim h [ ]
get_elem?-set (x ∷ xs) zero v h = refl
get_elem?-set (x ∷ xs) (suc i) v h = get_elem?-set xs i v (omega arith)

module _ {C : Type 0} where
  -- No entry below place `k` has the term `t`.
  abbrev pub IsUnmatched : List (LogEntry C) → ℕ → ℕ → Type 0
  IsUnmatched log t k = (j : ℕ) (e : LogEntry C) → j < k → get_elem? log j ≡ some e → e.term ≢ t

  scan_back_none :
      (log : List (LogEntry C)) (t k : ℕ)
      → k ≤ length log
      → IsUnmatched log t k
      → scan_back log t k ≡ some 0
  unfolding scan_back
  scan_back_none log t zero le u = refl
  scan_back_none log t (suc k) le u =
      let (e, q) = get_elem?_lt log k (omega arith) in
      ground (
        arith,
        scan_back_none log t k (omega arith) (λ j x lt. u j x (omega arith)),
        u k e (omega arith) q,
      )

  scan_forward_none :
      (log : List (LogEntry C)) (t rounds : ℕ)
      → 0 < length log
      → IsUnmatched log t 1
      → scan_forward log t rounds 0 ≡ some 0
  unfolding scan_forward
  scan_forward_none log t zero f u = refl
  scan_forward_none log t (suc rounds) f u =
      let (e, q) = get_elem?_lt log 0 f in ground (arith, u 0 e (omega arith) q)

  pub get_next_index_unmatched :
      (reply : AppendEntriesReply) (next t : ℕ) (rf : Raft C)
      → reply.conflict_term ≢ 0
      → rf.last_included_index ≤ reply.conflict_first_index
      → term_at rf reply.conflict_first_index ≡ some t
      → reply.conflict_term ≤ t
      → IsUnmatched rf.log reply.conflict_term
          (suc (reply.conflict_first_index - rf.last_included_index))
      → get_next_index reply next rf ≡ some rf.last_included_index
  unfolding get_next_index scan term_at
  get_next_index_unmatched reply next t rf ne above at le u =
      let p = reply.conflict_first_index - rf.last_included_index in
      let within : p < length rf.log = ground (arith, at, get_elem?_le rf.log p) in
      ground (
        arith,
        at,
        scan_back_none rf.log reply.conflict_term (suc p) within u,
        scan_forward_none rf.log reply.conflict_term (next - (rf.last_included_index + 0))
            (omega arith) (λ j e lt. u j e (omega arith)),
      )

module _ {C : Type 0} (gob : Gob C) where
  -- If the leader has an entry at the conflict, of no lower term, but none of the refusal's term up to
  -- there, then the next index of the peer becomes the index of the leader's snapshot, and the retry
  -- sends the peer that snapshot instead of the entries from the conflict on.
  pub unmatched_term_sends_snapshot :
      (spare : List (LogEntry C)) (i next t index term commit : ℕ) (args : AppendEntriesArgs C)
      (reply : AppendEntriesReply) (rf : Raft C)
      → i < length rf.next_index
      → reply.term ≤ args.term
      → reply.conflict_term ≢ 0
      → rf.last_included_index ≤ reply.conflict_first_index
      → term_at rf reply.conflict_first_index ≡ some t
      → reply.conflict_term ≤ t
      → IsUnmatched rf.log reply.conflict_term
          (suc (reply.conflict_first_index - rf.last_included_index))
      → let rf' : Raft C = record rf { next_index = set rf.next_index i rf.last_included_index } in
        (handle_refusal gob i args next reply rf ≡ some (rf', retry))
        × (prepare spare index term commit i rf' ≡ some (Message.install (snapshot_args rf')))
  unfolding handle_refusal prepare
  unmatched_term_sends_snapshot spare i next t index term commit args reply rf lt due ne above at le
        u =
      (
        ground (arith, get_next_index_unmatched reply next t rf ne above at le u),
        ground (arith, get_elem?-set rf.next_index i rf.last_included_index lt),
      )
