-- ===== src/Raft/Vote/Rules.antt =====
-- Elections: who gets a vote, and what a won election leaves.
use mit.Prelude.{
  ℕ, ◌+◌, ◌-◌, ◌*◌, ◌≡◌, ◌≢◌, ◌↔◌, ◌⊎◌, ◌≤◌, ◌<◌, true, none, some, arith, length, replicate,
  get_elem?_lt,
}
use mit.Raft.Types.{candidate, leader, Raft, Tick, RequestVoteArgs, RequestVoteReply, LogEntry}
use mit.Raft.Gob.{Gob}
use mit.Raft.Local.{last_log_index, entry_at, term_at}
use mit.Raft.Vote.{request_vote, start_election, handle_vote_reply, vote_args}

module _ {C : Type 0} where
  -- The log has its placeholder.
  abbrev HasLog : Raft C → Type 0
  HasLog rf = 0 < length rf.log

  pub last_entry :
      (rf : Raft C) → HasLog rf → (e : LogEntry C) × (entry_at rf (last_log_index rf) ≡ some e)
  unfolding entry_at last_log_index
  last_entry rf h =
      let (e, q) = get_elem?_lt rf.log (length rf.log - 1) (omega arith) in (e, ground arith)

module _ {C : Type 0} (gob : Gob C) where
  -- What RequestVote demands of a request, on a peer whose last entry has the term `last`.
  pub record Deserves (args : RequestVoteArgs) (rf : Raft C) (last : ℕ) : Type 0 where
    pub not_old : rf.current_term ≤ args.term
    pub free :
        (rf.current_term < args.term)
        ⊎ (rf.vote_for ≡ none)
        ⊎ (rf.vote_for ≡ some args.candidate_id)
    pub recent :
        (last < args.last_log_term)
        ⊎ ((last ≡ args.last_log_term) × (last_log_index rf ≤ args.last_log_index))

  -- RequestVote grants the vote exactly when the term of the request is not old, the vote of that
  -- term is free or the candidate's already, and the candidate's log is at least as up to date as
  -- the log of the peer, whose last entry has the term `last`.
  pub vote_granted_iff :
      (args : RequestVoteArgs) (t : Tick) (rf rf' : Raft C) (reply : RequestVoteReply) (last : ℕ)
      → term_at rf (last_log_index rf) ≡ some last
      → request_vote gob args t rf ≡ some (rf', reply)
      → (reply.vote_granted ≡ true) ↔ Deserves args rf last
  unfolding request_vote
  vote_granted_iff args t rf rf' reply last h e = (λ g. ground arith, λ d. ground arith)

  -- A peer that grants its vote has recorded it, in the term of the request, on disk too; before, its
  -- term was older, or its vote was free or the candidate's already.
  pub vote_recorded :
      (args : RequestVoteArgs) (t : Tick) (rf rf' : Raft C) (reply : RequestVoteReply)
      → request_vote gob args t rf ≡ some (rf', reply)
      → reply.vote_granted ≡ true
      → (rf'.current_term ≡ args.term)
        × (rf'.vote_for ≡ some args.candidate_id)
        × (rf'.persister.raftstate ≡ gob.encode_state args.term (some args.candidate_id) rf.log)
        × ((rf.current_term < args.term)
            ⊎ (rf.vote_for ≡ none)
            ⊎ (rf.vote_for ≡ some args.candidate_id))
  unfolding request_vote
  vote_recorded args t rf rf' reply h g = (ground arith, ground arith, ground arith, ground arith)

  -- RequestVote never panics on a log with its placeholder.
  pub request_vote_total :
      (args : RequestVoteArgs) (t : Tick) (rf : Raft C)
      → HasLog rf
      → request_vote gob args t rf ≢ none
  unfolding request_vote
  request_vote_total args t rf h =
      let (e, q) = get_elem?_lt rf.log (length rf.log - 1) (omega arith) in ground arith

  -- The candidate asks for its own new term, with its vote cast for itself and saved, and describes
  -- its own log.
  start_election_lem :
      (t : Tick) (rf : Raft C)
      → let rf' = start_election gob t rf in
        (rf'.state ≡ candidate)
        × (rf'.current_term ≡ rf.current_term + 1)
        × (rf'.vote_for ≡ some rf.me)
        × (rf'.persister.raftstate ≡ gob.encode_state (rf.current_term + 1) (some rf.me) rf.log)
        × (vote_args rf' ≡ elim (term_at rf (last_log_index rf)) [
          | none ↦ none
          | some last ↦ some (record {
            term = rf.current_term + 1;
            candidate_id = rf.me;
            last_log_index = last_log_index rf;
            last_log_term = last;
          })
        ])
  unfolding start_election vote_args
  start_election_lem t rf = ground arith

  -- A peer that does not lead becomes leader by a reply only as a candidate that counts a majority
  -- with this vote, and then it leads with every next index behind its log.
  leader_by_majority :
      (reply : RequestVoteReply) (n : ℕ) (rf : Raft C)
      → rf.state ≢ leader
      → (handle_vote_reply gob reply n rf).0.state ≡ leader
      → (rf.state ≡ candidate)
        × (reply.vote_granted ≡ true)
        × (rf.peers < 2 * (n + 1))
        × ((handle_vote_reply gob reply n rf).0.next_index
            ≡ replicate rf.peers (last_log_index rf + 1))
  unfolding handle_vote_reply
  leader_by_majority reply n rf h l = ground arith
