-- ===== src/Raft/Vote.antt =====
-- raft.go: elections. RequestVote, startElection, and what a candidate does with each reply.
pub mod Rules
use mit.Prelude.{
  ℕ, ◌+◌, ◌/◌, Bool, true, false, ◌&&◌, ◌||◌, Option, none, some, ltb, leb, ◌==◌, if◌then◌else◌,
  replicate, ◌>>=◌,
}
use mit.Raft.Types.{follower, candidate, leader, Raft, Tick, RequestVoteArgs, RequestVoteReply}
use mit.Raft.Gob.{Gob}
use mit.Raft.Local.{last_log_index, term_at, switch_to, reset_election_timer, persist}

-- rf.VoteFor == -1 || rf.VoteFor == args.CandidateId
unfoldable pub may_vote_for : ℕ → Option ℕ → Bool
may_vote_for c none = true
may_vote_for c (some v) = v == c

-- The candidate's log is at least as up to date as the one that ends at `last_index`, `last_term`.
unfoldable pub up_to_date : RequestVoteArgs → ℕ → ℕ → Bool
up_to_date args last_index last_term =
    ltb last_term args.last_log_term
    || (last_term == args.last_log_term && leb last_index args.last_log_index)

-- winThreshold, and majority in broadcastAppendEntries
unfoldable pub majority : ℕ → ℕ
majority peers = peers / 2 + 1

module _ {C : Type 0} where
  -- rf.CurrentTerm != args.Term ends the goroutine that waited for a reply.
  unfoldable pub is_current : ℕ → Raft C → Bool
  is_current sent rf = rf.current_term == sent

  -- The section that builds the arguments for one peer.
  unfoldable pub vote_args : Raft C → Option RequestVoteArgs
  unfolding last_log_index term_at
  vote_args rf = do
    last_term ← term_at rf (last_log_index rf)
    some (record {
      term = rf.current_term;
      candidate_id = rf.me;
      last_log_index = last_log_index rf;
      last_log_term = last_term;
    })

  -- The branch of a candidate that has won. The loop writes every place of both slices.
  unfoldable pub become_leader : Raft C → Raft C
  unfolding switch_to last_log_index
  become_leader rf =
      let rf₁ = switch_to leader rf in
      record rf₁ {
        leader_id = some rf.me;
        next_index = replicate rf.peers (last_log_index rf + 1);
        match_index = replicate rf.peers 0;
      }

  unfoldable pub is_candidate : Raft C → Bool
  is_candidate rf = elim rf.state [ candidate ↦ true | _ ↦ false ]

module _ {C : Type 0} (gob : Gob C) where
  -- A term above the own: take it over, as a follower that has not voted.
  unfoldable pub adopt_term : ℕ → Raft C → Raft C
  unfolding switch_to persist
  adopt_term t rf =
      persist gob (switch_to follower (record rf { current_term = t; vote_for = none }))

  -- the branch that grants the vote
  unfoldable pub grant_vote : RequestVoteArgs → Tick → Raft C → Raft C
  unfolding reset_election_timer switch_to persist
  grant_vote args t rf = persist gob (
      switch_to follower (reset_election_timer t (record rf { vote_for = some args.candidate_id })))

  unfoldable pub refuse_vote : Raft C → Raft C × RequestVoteReply
  refuse_vote rf = (rf, record { term = rf.current_term; vote_granted = false })

  -- from the test of VoteFor on, with the term up to date
  unfoldable pub consider_vote :
      RequestVoteArgs → Tick → Raft C → Option (Raft C × RequestVoteReply)
  unfolding grant_vote refuse_vote may_vote_for up_to_date last_log_index term_at
  consider_vote args t rf =
      if may_vote_for args.candidate_id rf.vote_for
      then (do
        last_term ← term_at rf (last_log_index rf)
        if up_to_date args (last_log_index rf) last_term
            then some (grant_vote args t rf, record { term = rf.current_term; vote_granted = true })
            else some (refuse_vote rf))
      else some (refuse_vote rf)

  -- The handler RequestVote.
  unfoldable pub request_vote : RequestVoteArgs → Tick → Raft C → Option (Raft C × RequestVoteReply)
  unfolding consider_vote adopt_term refuse_vote
  request_vote args t rf =
      if leb rf.current_term args.term
      then if ltb rf.current_term args.term
        then consider_vote args t (adopt_term args.term rf)
        else consider_vote args t rf
      else some (refuse_vote rf)

  -- The first locked section of startElection. The counter nVotes starts at 1.
  unfoldable pub start_election : Tick → Raft C → Raft C
  unfolding switch_to reset_election_timer persist
  start_election t rf =
      let rf₁ = switch_to candidate rf in
      persist gob (
        reset_election_timer t
          (record rf₁ { current_term = rf.current_term + 1; vote_for = some rf.me }))

  -- What the goroutine for one peer does with the reply, after it has seen `is_current` in a
  -- locked section of its own. It is given nVotes, and returns nVotes, and whether it starts
  -- broadcastHeartbeat.
  unfoldable pub handle_vote_reply : RequestVoteReply → ℕ → Raft C → Raft C × ℕ × Bool
  unfolding adopt_term become_leader is_candidate majority
  handle_vote_reply reply n_votes rf =
      if reply.vote_granted
      then if is_candidate rf && leb (majority rf.peers) (n_votes + 1)
        then (become_leader rf, n_votes + 1, true)
        else (rf, n_votes + 1, false)
      else if ltb rf.current_term reply.term
      then (adopt_term reply.term rf, n_votes, false)
      else (rf, n_votes, false)
