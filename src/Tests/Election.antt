-- ===== src/Tests/Election.antt =====
-- The theorems on elections at concrete requests.
use mit.Prelude.{ℕ, ◌≡◌, ◌↔◌, refl, true, some, []}
use mit.Raft.Types.{Raft, RequestVoteReply}
use mit.Raft.Vote.{request_vote}
use mit.Raft.Vote.Rules.{Deserves, vote_granted_iff}
use mit.Tests.Codec.{nat_gob}
use mit.Tests.Peers.{tick, two_entries, peer, vote_request}

abbrev granted : RequestVoteReply
granted = record { term = 3; vote_granted = true }

-- The peer after it has voted for candidate 1 in term 3.
abbrev voted : Raft ℕ
voted = record peer {
  persister = record { raftstate = nat_gob.encode_state 3 (some 1) two_entries; snapshot = [] };
  election_timeout = 650;
  latest_heard_time = 1000;
  current_term = 3;
  vote_for = some 1;
}

vote_granted_iff_example : (granted.vote_granted ≡ true) ↔ Deserves nat_gob vote_request peer 2
unfolding request_vote
vote_granted_iff_example = vote_granted_iff nat_gob vote_request tick peer voted granted 2 refl refl
