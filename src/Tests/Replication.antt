-- ===== src/Tests/Replication.antt =====
-- The theorems on AppendEntries and on the leader's side of it at concrete requests.
use mathlib.Core.Option
use mit.Prelude.{
  ℕ, ◌+◌, ◌*◌, ◌≡◌, ◌≢◌, refl, ◌<◌, ◌≤◌, true, false, none, some, List, Bool, [], ◌∷◌, arith,
}
use mit.Raft.Types.{LogEntry, apply_cond, leader, Raft, AppendEntriesArgs, AppendEntriesReply}
use mit.Raft.Local.{term_at}
use mit.Raft.Append.{
  store_entries, adopt_leader_term, finish_append, accept_entries, is_consistent, check_entries,
  append_entries,
}
use mit.Raft.Append.Agree.{Stored}
use mit.Raft.Append.Reply.{append_entries_agrees}
use mit.Raft.Append.Total.{append_entries_total}
use mit.Raft.Replicate.{Round, heartbeat, done, get_next_index, handle_success, handle_refusal}
use mit.Raft.Replicate.Commit.{commit_rule}
use mit.Raft.Replicate.Stale.{stale_refusal_votes_twice}
use mit.Raft.Replicate.Below.{IsAstray, low_conflict_panics}
use mit.Raft.Replicate.{Message, prepare}
use mit.Raft.Types.{RequestVoteArgs, RequestVoteReply}
use mit.Raft.Vote.{request_vote}
use mit.Raft.Local.{last_log_index}
use mit.Prelude.{zero, suc, inr}
use mit.Raft.Replicate.Retry.{retry_moves_back}
use mit.Tests.Codec.{nat_gob}
use mit.Tests.Peers.{
  tick, entry, placeholder, two_entries, peer, leading, append_request, appended, success,
}

append_entries_agrees_example :
    (peer.current_term ≤ 3)
    × (appended.current_term ≡ 3)
    × (term_at peer 1 ≡ some 1)
    × Stored append_request peer appended
unfolding append_entries check_entries adopt_leader_term is_consistent accept_entries store_entries
    finish_append
append_entries_agrees_example =
    append_entries_agrees nat_gob append_request tick tick peer appended success refl refl

append_entries_total_example : append_entries nat_gob append_request tick tick peer ≢ none
append_entries_total_example =
    append_entries_total nat_gob append_request tick tick peer (omega arith)

-- A follower whose entry of index 2 is of term 1, which begins at index 1.
abbrev conflict : AppendEntriesReply
conflict = record { term = 2; conflict_term = 1; conflict_first_index = 1; success = false }

retry_moves_back_example : 2 < 3
unfolding get_next_index
retry_moves_back_example =
    retry_moves_back conflict 3 2 leading 2 (omega arith) (omega arith) refl (λ e. omega arith) refl

-- The leader knows that peer 1 has the first entry.
abbrev behind : Raft ℕ
behind = record leading { next_index = 3 ∷ 2 ∷ 3 ∷ [] }

abbrev sent_args : AppendEntriesArgs ℕ
sent_args = record {
  term = 2;
  leader_id = 0;
  prev_log_index = 1;
  prev_log_term = 1;
  entries = entry 8 2 2 ∷ [];
  leader_commit = 1;
}

-- A request that reaches index 1, with a commit index above it, on a log that has an entry of its own
-- at index 2.
abbrev short_request : AppendEntriesArgs ℕ
short_request = record append_request {
  prev_log_index = 0;
  prev_log_term = 0;
  entries = entry 7 1 1 ∷ [];
}

-- The follower commits that entry.
short_request_commits :
    Option.map {B = List (LogEntry ℕ) × ℕ × Bool}
      (λ r. (r.0.log, r.0.commit_index, r.1.success))
      (append_entries nat_gob short_request tick tick peer)
    ≡ some (two_entries, 2, true)
unfolding append_entries check_entries adopt_leader_term is_consistent accept_entries store_entries
    finish_append
short_request_commits = refl

abbrev one_replica : Round
one_replica = record { n_replica = 1; is_agree = false }

abbrev two_replicas : Round
two_replicas = record { n_replica = 2; is_agree = true }

abbrev committed : Raft ℕ
committed = record leading { commit_index = 2; signals = apply_cond ∷ [] }

commit_rule_example :
    (leading.state ≡ leader)
    × (leading.commit_index < 2)
    × (committed.commit_index ≡ 2)
    × (term_at leading 2 ≡ some leading.current_term)
    × (leading.peers < 2 * (1 + 1))
unfolding handle_success
commit_rule_example =
    commit_rule 1 2 one_replica two_replicas heartbeat leading committed refl (λ e. omega arith)

-- A follower with two entries of term 2, and a leader of term 3 with a snapshot up to index 3.
abbrev behind_snapshot : Raft ℕ
behind_snapshot = record peer { log = placeholder ∷ entry 7 1 1 ∷ entry 8 2 2 ∷ entry 9 2 3 ∷ [] }

abbrev compacted : Raft ℕ
compacted = record leading {
  current_term = 3;
  log = entry 10 3 3 ∷ [];
  last_included_index = 3;
  last_included_term = some 3;
}

abbrev next_request : AppendEntriesArgs ℕ
next_request = record append_request { prev_log_index = 3; prev_log_term = 3 }

behind-IsAstray : IsAstray next_request behind_snapshot 2 2
unfolding term_at
behind-IsAstray = record {
  above = omega arith;
  reaches = omega arith;
  inside = omega arith;
  terms = λ m lo hi. same_term m lo hi;
  other = λ e. omega arith;
}
  where
    same_term : (m : ℕ) → 2 ≤ m → m ≤ 3 → term_at behind_snapshot m ≡ some 2
    same_term zero lo hi = absurd (omega arith)
    same_term (suc zero) lo hi = absurd (omega arith)
    same_term (suc (suc zero)) lo hi = refl
    same_term (suc (suc (suc zero))) lo hi = refl
    same_term (suc (suc (suc (suc m)))) lo hi = absurd (omega arith)

low_conflict_panics_example :
    (f' : Raft ℕ) × (reply : AppendEntriesReply) × (append_entries nat_gob next_request tick tick
        behind_snapshot
      ≡ some (f', reply))
    × (reply.success ≡ false)
    × (reply.term ≡ 3)
    × (handle_refusal nat_gob 1 next_request 4 reply compacted ≡ none)
low_conflict_panics_example =
    low_conflict_panics nat_gob next_request tick tick behind_snapshot compacted 1 4 2 2
      (omega arith) behind-IsAstray (omega arith) (omega arith)

-- The leader of term 2 hears of term 3 by a refusal, and of term 4 by two candidates.
abbrev first_request : RequestVoteArgs
first_request = record { term = 4; candidate_id = 1; last_log_index = 2; last_log_term = 2 }

abbrev second_request : RequestVoteArgs
second_request = record first_request { candidate_id = 2 }

abbrev refused_args : AppendEntriesArgs ℕ
refused_args = record append_request { term = 2 }

abbrev refused_later : AppendEntriesReply
refused_later = record { term = 3; conflict_term = 0; conflict_first_index = 0; success = false }

stale_refusal_votes_twice_example :
    (rf₁ rf₂ rf₃ : Raft ℕ) × (a b : RequestVoteReply) × (request_vote nat_gob first_request tick
        leading
      ≡ some (rf₁, a))
    × (a.vote_granted ≡ true)
    × (rf₁.current_term ≡ 4)
    × (rf₁.vote_for ≡ some 1)
    × (handle_refusal nat_gob 1 refused_args 2 refused_later rf₁ ≡ some (rf₂, done))
    × (rf₂.current_term ≡ 3)
    × (request_vote nat_gob second_request tick rf₂ ≡ some (rf₃, b))
    × (b.vote_granted ≡ true)
    × (rf₃.current_term ≡ 4)
    × (rf₃.vote_for ≡ some 2)
unfolding term_at last_log_index
stale_refusal_votes_twice_example =
    stale_refusal_votes_twice nat_gob 1 2 refused_args refused_later first_request second_request
      tick tick leading 2 refl (omega arith) (omega arith) refl (omega arith) refl
      (inr (refl, omega arith)) (inr (refl, omega arith))

-- A peer whose log has become too short for the broadcast sends what its array has behind the log.
sends_spare :
    prepare
      (entry 8 2 2 ∷ [])
      2
      2
      0
      1
      (record leading { log = placeholder ∷ entry 7 1 1 ∷ []; next_index = 3 ∷ 2 ∷ 3 ∷ [] })
    ≡ some (
        Message.append
          (record {
            term = 2;
            leader_id = 0;
            prev_log_index = 1;
            prev_log_term = 1;
            entries = entry 8 2 2 ∷ [];
            leader_commit = 0;
          })
          2)
unfolding prepare
sends_spare = refl
