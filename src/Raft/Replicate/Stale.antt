-- ===== src/Raft/Replicate/Stale.antt =====
-- The handling of a refusal after the peer has gone on to a later term.
use mit.Prelude.{ℕ, ◌≡◌, ◌⊎◌, ◌≤◌, ◌<◌, inl, true, some, arith, length, ne_none-some}
use mit.Raft.Types.{
  Raft, Tick, RequestVoteArgs, RequestVoteReply, AppendEntriesArgs, AppendEntriesReply,
}
use mit.Raft.Gob.{Gob}
use mit.Raft.Local.{term_at, last_log_index}
use mit.Raft.Vote.{request_vote, adopt_term}
use mit.Raft.Vote.Rules.{request_vote_total, vote_granted_iff, vote_recorded}
use mit.Raft.Replicate.{done, handle_refusal}

module _ {C : Type 0} (gob : Gob C) where
  -- The candidate's log is as up to date as that of the peer, whose last entry has the term `last`.
  abbrev pub IsRecent : RequestVoteArgs → Raft C → ℕ → Type 0
  IsRecent v rf last =
      (last < v.last_log_term) ⊎ ((last ≡ v.last_log_term) × (last_log_index rf ≤ v.last_log_index))

  -- A request for votes in a term above the peer's own is granted, if its candidate's log will do.
  later_vote :
      (v : RequestVoteArgs) (t : Tick) (rf : Raft C) (last : ℕ)
      → rf.current_term < v.term
      → 0 < length rf.log
      → term_at rf (last_log_index rf) ≡ some last
      → IsRecent v rf last
      → (rf' : Raft C) × (reply : RequestVoteReply) × (request_vote gob v t rf ≡ some (rf', reply))
        × (reply.vote_granted ≡ true)
  later_vote v t rf last lt filled at recent =
      let ((rf', reply), e) =
        ne_none-some (request_vote gob v t rf) (request_vote_total gob v t rf filled) in
      (
        rf',
        reply,
        e,
        (vote_granted_iff gob v t rf rf' reply last at e).1
            (record { not_old = omega arith; free = inl lt; recent = recent }),
      )

  same_log :
      (v : RequestVoteArgs) (t : Tick) (rf rf' : Raft C) (reply : RequestVoteReply)
      → request_vote gob v t rf ≡ some (rf', reply)
      → (rf'.log ≡ rf.log) × (rf'.last_included_index ≡ rf.last_included_index)
  unfolding request_vote
  same_log v t rf rf' reply h = (ground arith, ground arith)

  -- Two votes in one term. A peer waits for the reply to its request `args`, and is still in the term of
  -- that request when it compares the terms. Then it votes for a candidate of a term above that of the
  -- reply, which is a refusal of a later term than the request's, before it handles the reply. Handling it
  -- takes the peer back to the term of the reply, with its vote free, so that it votes in the same term for
  -- any other candidate too whose log is as up to date.
  pub stale_refusal_votes_twice :
      (i next : ℕ) (args : AppendEntriesArgs C) (reply : AppendEntriesReply) (v w : RequestVoteArgs)
      (t u : Tick) (rf : Raft C) (last : ℕ)
      → rf.current_term ≡ args.term
      → args.term < reply.term
      → reply.term < v.term
      → w.term ≡ v.term
      → 0 < length rf.log
      → term_at rf (last_log_index rf) ≡ some last
      → IsRecent v rf last
      → IsRecent w rf last
      → (rf₁ rf₂ rf₃ : Raft C) × (a b : RequestVoteReply) × (request_vote gob v t rf
          ≡ some (rf₁, a))
        × (a.vote_granted ≡ true)
        × (rf₁.current_term ≡ v.term)
        × (rf₁.vote_for ≡ some v.candidate_id)
        × (handle_refusal gob i args next reply rf₁ ≡ some (rf₂, done))
        × (rf₂.current_term ≡ reply.term)
        × (request_vote gob w u rf₂ ≡ some (rf₃, b))
        × (b.vote_granted ≡ true)
        × (rf₃.current_term ≡ v.term)
        × (rf₃.vote_for ≡ some w.candidate_id)
  unfolding handle_refusal term_at last_log_index
  stale_refusal_votes_twice i next args reply v w t u rf last now lt lt' same filled at rv rw' =
      let (rf₁, a, first, yes₁) = later_vote v t rf last (omega arith) filled at rv in
      let (log, base) = same_log v t rf rf₁ a first in
      let (term₁, vote₁, saved₁, free₁) = vote_recorded gob v t rf rf₁ a first yes₁ in
      let rf₂ = adopt_term gob reply.term rf₁ in
      let (rf₃, b, second, yes₂) =
        later_vote w u rf₂ last (ground (arith, same, lt')) (ground (arith, log, filled))
          (ground (arith, log, base, at)) (ground (arith, log, base, rw')) in
      let (term₃, vote₃, saved₃, free₃) = vote_recorded gob w u rf₂ rf₃ b second yes₂ in
      (
        rf₁,
        rf₂,
        rf₃,
        a,
        b,
        first,
        yes₁,
        term₁,
        vote₁,
        ground (arith, lt),
        ground arith,
        second,
        yes₂,
        omega (arith, term₃, same),
        vote₃,
      )
