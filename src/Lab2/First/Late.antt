-- ===== src/Lab2/First/Late.antt =====
-- Lab2_Raft/Part2A: votes of an earlier term are counted.
use mit.Prelude.{ℕ, ◌+◌, ◌/◌, ◌≡◌, ◌<◌, true, false, List, [], ◌∷◌, All, arith, length, refl}
use mit.Raft.Types.{follower, leader}
use mit.Lab2.First.{
  Raft, RequestVoteReply, handle_vote_reply, switch_to, is_state, reset_timer, start_election,
  increment_term, follower_turn, candidate_turn,
}

module _ {C : Type 0} where
  -- The replies as they come in.
  abbrev pub handle_all : List RequestVoteReply → Raft C → Raft C
  handle_all [] rf = rf
  handle_all (reply ∷ replies) rf = handle_all replies (handle_vote_reply reply rf)

  record Counted (n : ℕ) (rf rf' : Raft C) : Type 0 where
    count : rf'.vote_granted_count ≡ rf.vote_granted_count + n
    term : rf'.current_term ≡ rf.current_term
    state : rf'.state ≡ rf.state
    peers : rf'.peers ≡ rf.peers

  handle_all-Counted :
      (replies : List RequestVoteReply) (rf : Raft C)
      → All (λ r. r.vote_granted ≡ true) replies
      → Counted (length replies) rf (handle_all replies rf)
  unfolding handle_vote_reply
  handle_all-Counted [] rf g = record {
    count = omega arith;
    term = refl;
    state = refl;
    peers = refl;
  }
  handle_all-Counted (reply ∷ replies) rf (g, gs) =
      let c = handle_all-Counted replies (handle_vote_reply reply rf) gs in
      record {
        count = ground (arith, c.count);
        term = ground (arith, c.term);
        state = ground (arith, c.state);
        peers = ground (arith, c.peers);
      }

  -- A follower whose timer fires asks for votes in a new term. Then it needs no vote of that term to
  -- lead in it: replies that granted a vote in any terms do, if with its own vote they are more than
  -- half as many as the peers.
  pub late_votes_elect :
      (rf : Raft C) (replies : List RequestVoteReply) (r r₁ r₂ : ℕ)
      → rf.state ≡ follower
      → All (λ reply. reply.vote_granted ≡ true) replies
      → rf.peers / 2 < length replies + 1
      → ((candidate_turn false r₁ r₂ (handle_all replies (follower_turn r rf))).state ≡ leader)
        × ((candidate_turn false r₁ r₂ (handle_all replies (follower_turn r rf))).current_term
            ≡ rf.current_term + 1)
  unfolding candidate_turn follower_turn switch_to is_state start_election increment_term
      reset_timer
  late_votes_elect rf replies r r₁ r₂ f g most =
      let c = handle_all-Counted replies (follower_turn r rf) g in
      (ground (arith, c.count, c.peers), ground (arith, c.count, c.term))
