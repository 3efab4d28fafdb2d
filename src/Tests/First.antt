-- ===== src/Tests/First.antt =====
-- Three peers of Lab2_Raft/Part2A.
use mit.Prelude.{ℕ, ◌≡◌, true, false, [], ◌∷◌, arith, refl, none}
use mit.Raft.Types.{leader, follower}
use mit.Lab2.First.{
  Raft, make, vote_args, request_vote, get_state, follower_turn, candidate_turn, handle_vote_reply,
  decide_vote, switch_to, is_state, reset_timer, start_election, increment_term,
}
use mit.Lab2.First.Ballots.{here, next, follow, one_vote}
use mit.Lab2.First.Late.{handle_all, late_votes_elect}

-- Peer 0 asks in term 1, and again in term 2 when no reply has come in.
abbrev asking : Raft ℕ
asking = follower_turn 0 (make 3 0)

abbrev again : Raft ℕ
again = candidate_turn true 0 0 asking

-- Peer 1 votes for it in term 1, and asks for itself in term 2.
abbrev voter : Raft ℕ
voter = (request_vote (vote_args asking) (make 3 1)).0

abbrev rival : Raft ℕ
rival = follower_turn 0 voter

one_vote_example :
    (request_vote (vote_args (follower_turn 0 (make {C = ℕ} 3 2))) rival).1.vote_granted ≡ false
unfolding follower_turn switch_to is_state start_election increment_term reset_timer make
    request_vote decide_vote vote_args
one_vote_example =
    one_vote (vote_args asking) (make 3 1) rival (follower_turn 0 (make 3 2)) refl
      (next here (follow 0)) refl (omega arith)

-- A follower of term 5 that has asked in term 4.
abbrev late : Raft ℕ
late = record {
  peers = 3;
  me = 0;
  logs = [];
  voted_for = none;
  current_term = 5;
  state = follower;
  commit_index = none;
  last_applied = none;
  vote_granted_count = 1;
  next_index = 0 ∷ 0 ∷ 0 ∷ [];
  match_index = 0 ∷ 0 ∷ 0 ∷ [];
  election_timer = 200;
  vote_signals = 0;
}

abbrev elected : Raft ℕ
elected =
    candidate_turn false 0 0
      (handle_all (record { term = 4; vote_granted = true } ∷ []) (follower_turn 0 late))

-- The vote of term 4 makes it the leader of term 6.
late_votes_elect_example : (elected.state ≡ leader) × (elected.current_term ≡ 6)
late_votes_elect_example =
    late_votes_elect late (record { term = 4; vote_granted = true } ∷ []) 0 0 0 refl (refl, tt)
      (omega arith)

-- Peer 0 gets the vote of term 1 late, peer 1 gets one of term 2: both lead in term 2.
two_leaders :
    (get_state (
        candidate_turn false 0 0
          (handle_vote_reply (request_vote {C = ℕ} (vote_args asking) (make 3 1)).1 again))
      ≡ (2, true))
    × (get_state (
          candidate_turn false 0 0
            (handle_vote_reply (request_vote {C = ℕ} (vote_args rival) (make 3 2)).1 rival))
        ≡ (2, true))
unfolding follower_turn candidate_turn switch_to is_state start_election increment_term reset_timer
    make request_vote decide_vote vote_args handle_vote_reply get_state
two_leaders = (refl, refl)
