-- ===== src/Tests/Clusters.antt =====
-- The theorems on several peers, at a network of three of which one becomes the leader.
pub mod Commits
use mit.Prelude.{none, ℕ, ◌≡◌, refl, true, some, inl, List, [], ◌∷◌, arith}
use mit.Raft.Types.{LogEntry, Raft, RequestVoteArgs, AppendEntriesArgs}
use mit.Raft.Gob.{Gob}
use mit.Raft.Local.{entry_at, switch_to}
use mit.Raft.Vote.{request_vote, start_election, handle_vote_reply, is_current}
use mit.Raft.Append.{
  append_entries, check_entries, is_consistent, accept_entries, store_entries, finish_append,
}
use mit.Raft.Replicate.{prepare}
use mit.Raft.Service.{append_command, make, boot}
use mit.Raft.Cluster.{Ballot, update, Cluster, Move, grant, elect, tally_vote, here, next, IsFresh}
use mit.Raft.Cluster.Safety.{election_safety}
use mit.Raft.Network.{Network, Event, still, send, receive, submit, Trace, start, later}
use mit.Raft.Network.Matching.{log_matching}
use mit.Raft.Service.Delivery.{messages}
use mit.Kv.Types.{put, Op, KvServer}
use mit.Kv.Replicas.{up_to, outcome, replicas_agree}
use mit.Tests.Encoders.{op_gob, table_gob}
use mit.Tests.Codec.{nat_gob}
use mit.Tests.Peers.{tick}

module _ {C : Type 0} (gob : Gob C) (c : C) where
  abbrev nobody : LogEntry C
  nobody = record { command = none; term = 0; index = 0 }

  abbrev first_entry : LogEntry C
  first_entry = record { command = some c; term = 1; index = 1 }

  abbrev blank : ℕ → Raft C
  unfolding boot
  blank i = boot 3 i (record { raftstate = []; snapshot = [] }) tick

  -- Three peers, and more that nobody asks.
  abbrev idle : Cluster C
  idle = record { peer = blank; ballots = []; tally = λ i. [] }

  idle-IsFresh : IsFresh gob 3 idle
  unfolding make
  idle-IsFresh = record { made = λ i. (tick, refl); ballots = refl; tally = λ i. refl }

  -- Peer 0 stands for election,
  abbrev standing : Raft C
  standing = start_election gob tick (blank 0)

  abbrev ballot : ℕ → Ballot
  ballot v = record { voter = v; candidate = 0; term = 1 }

  abbrev asked : Cluster C
  asked = record {
    peer = update blank 0 standing;
    ballots = ballot 0 ∷ [];
    tally = update (λ i. []) 0 (0 ∷ []);
  }

  -- peer 1 votes for it,
  abbrev request : RequestVoteArgs
  request = record { term = 1; candidate_id = 0; last_log_index = 0; last_log_term = 0 }

  abbrev voter : Raft C
  voter = record (blank 1) {
    current_term = 1;
    vote_for = some 0;
    persister = record { raftstate = gob.encode_state 1 (some 0) (nobody ∷ []); snapshot = [] };
  }

  abbrev granted : Cluster C
  granted = record asked { peer = update asked.peer 1 voter; ballots = ballot 1 ∷ ballot 0 ∷ [] }

  -- and peer 0 leads.
  abbrev elected : Raft C
  elected = (handle_vote_reply gob (record { term = 1; vote_granted = true }) 1 standing).0

  abbrev led : Cluster C
  led = record granted {
    peer = update granted.peer 0 elected;
    tally = update granted.tally 0 (1 ∷ 0 ∷ []);
  }

  first : Move gob 3 idle asked
  unfolding start_election blank
  first = elect 0 tick (omega arith)

  second : Move gob 3 asked granted
  unfolding request_vote blank
  second = grant 1 request tick (omega arith) refl

  third : Move gob 3 granted led
  unfolding start_election is_current blank
  third = tally_vote 0 1 1 (record { term = 1; vote_granted = true }) refl (inl refl) refl refl

  -- The leader appends the command 9, and sends it to peer 1.
  abbrev written : Raft C
  written = (append_command gob c 2000 elected).0

  abbrev message : AppendEntriesArgs C
  message = record {
    term = 1;
    leader_id = 0;
    prev_log_index = 0;
    prev_log_term = 0;
    entries = first_entry ∷ [];
    leader_commit = 0;
  }

  abbrev quiet_network : Cluster C → Network C
  quiet_network s = record { cluster = s; pool = [] }

  abbrev submitted : Network C
  submitted = quiet_network (record led { peer = update led.peer 0 written })

  abbrev sent : Network C
  sent = record submitted { pool = message ∷ [] }

  abbrev follower_log : List (LogEntry C)
  follower_log = nobody ∷ first_entry ∷ []

  abbrev replicated : Raft C
  replicated = record voter {
    leader_id = some 0;
    log = follower_log;
    persister = record { raftstate = gob.encode_state 1 (some 0) follower_log; snapshot = [] };
  }

  abbrev received : Network C
  received = record sent {
    cluster = record sent.cluster { peer = update sent.cluster.peer 1 replicated };
  }

  commands : Event gob 3 (quiet_network led) submitted
  unfolding handle_vote_reply start_election blank
  commands = submit 0 c 2000 refl

  sends : Event gob 3 submitted sent
  unfolding append_command handle_vote_reply start_election blank prepare
  sends = send 0 [] 1 1 0 1 (omega arith) refl

  receives : Event gob 3 sent received
  unfolding append_entries check_entries is_consistent accept_entries store_entries switch_to
      finish_append blank
  receives = receive 1 message tick tick (inl refl) refl

  exchange : Trace gob 3 (quiet_network idle) received
  unfolding first second third
  exchange =
      later
        (later
          (later (later (later (later start (still first tt)) (still second tt)) (still third tt))
            commands)
          sends)
        receives

abbrev winner : ℕ
winner = 0

election_safety_example : winner ≡ winner
unfolding handle_vote_reply start_election blank
election_safety_example =
    election_safety nat_gob 3 (idle nat_gob 9) (led nat_gob 9) winner winner
      (idle-IsFresh nat_gob 9)
      (next (next (next here (first nat_gob 9)) (second nat_gob 9)) (third nat_gob 9)) refl refl
      refl

log_matching_example :
    entry_at ((received nat_gob 9).cluster.peer 0) 0
    ≡ entry_at ((received nat_gob 9).cluster.peer 1) 0
unfolding entry_at append_command handle_vote_reply start_election blank
log_matching_example =
    log_matching nat_gob 3 (quiet_network nat_gob 9 (idle nat_gob 9)) (received nat_gob 9) 0 1 1
      (first_entry nat_gob 9) (first_entry nat_gob 9) (idle-IsFresh nat_gob 9) refl
      (exchange nat_gob 9) refl refl refl 0 (omega arith)
