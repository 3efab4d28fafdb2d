-- ===== src/Tests/Clusters/Commits.antt =====
-- The same network goes on until peers 0 and 1 have committed the command.
use mit.Prelude.{
  none, ◌≡◌, refl, true, false, some, inl, inr, ◌++◌, [], ◌∷◌, arith, Bool-cases, ◌==◌,
}
use mit.Raft.Types.{Raft, ApplyMsg, apply_cond, AppendEntriesArgs}
use mit.Raft.Gob.{Gob}
use mit.Raft.Local.{entry_at, switch_to}
use mit.Raft.Vote.{request_vote, start_election, handle_vote_reply, vote_args}
use mit.Raft.Append.{
  append_entries, check_entries, is_consistent, accept_entries, store_entries, finish_append,
}
use mit.Raft.Replicate.{prepare, handle_success}
use mit.Raft.Service.{append_command, apply_entries}
use mit.Raft.Cluster.{update, Cluster}
use mit.Raft.Consensus.{
  System, other, ask, vote, post, receive, submit, agree, Course, start, later,
}
use mit.Raft.Consensus.Applied.{committed_applied}
use mit.Raft.Consensus.Agreement.{leader_completeness, state_machine_safety}
use mit.Raft.Consensus.Reachable.{IsInitial}
use mit.Raft.Service.Delivery.{messages}
use mit.Kv.Types.{put, Op, KvServer}
use mit.Kv.Replicas.{up_to, outcome, servers_agree}
use mit.Tests.Encoders.{op_gob, table_gob}
use mit.Tests.Codec.{nat_gob}
use mit.Tests.Peers.{tick}
use mit.Tests.Clusters.{
  idle, idle-IsFresh, first, third, request, quiet_network, written, replicated, first_entry, blank,
  message, led,
}

module _ {C : Type 0} (gob : Gob C) (c : C) where
  abbrev system : Cluster C → System C
  system s = record { network = quiet_network gob c s; calls = []; replies = [] }

  system-IsInitial : IsInitial gob 3 (system (idle gob c))
  system-IsInitial = record {
    fresh = idle-IsFresh gob c;
    pool = refl;
    calls = refl;
    replies = refl;
  }

  abbrev heartbeat : AppendEntriesArgs C
  heartbeat = record {
    term = 1;
    leader_id = 0;
    prev_log_index = 1;
    prev_log_term = 1;
    entries = [];
    leader_commit = 1;
  }

  abbrev committed : Raft C
  committed = record (written gob c) {
    next_index = 1 ∷ 2 ∷ 1 ∷ [];
    match_index = 0 ∷ 1 ∷ 0 ∷ [];
    commit_index = 1;
    signals = (written gob c).signals ++ apply_cond ∷ [];
  }

  abbrev told : Raft C
  told = record (replicated gob c) { commit_index = 1; signals = apply_cond ∷ [] }

  abbrev final : System C
  final = record {
    network = record {
      cluster = record (led gob c) {
        peer =
            update
              (update (update (update (led gob c).peer 0 (written gob c)) 1 (replicated gob c)) 0
                committed)
              1 told;
      };
      pool = heartbeat ∷ message gob c ∷ [];
    };
    calls = request gob c ∷ [];
    replies =
        record { voter = 1; term = 1; index = 1 } ∷ record { voter = 1; term = 1; index = 1 } ∷ [];
  }

  agreement : Course gob 3 (system (idle gob c)) final
  unfolding first third append_entries check_entries is_consistent accept_entries store_entries
      switch_to finish_append blank append_command handle_vote_reply start_election prepare
      handle_success vote_args request_vote
  agreement =
      later
        (later
          (later
            (later
              (later
                (later
                  (later
                    (later (later (later start (other (first gob c) tt)) (ask 0 refl refl))
                      (vote 1 (request gob c) tick (omega arith) (inl refl) refl))
                    (other (third gob c) tt))
                  (submit 0 c 2000 refl))
                (post 0 [] 1 1 0 1 (omega arith) refl refl (omega arith) (omega arith) refl))
              (receive 1 (message gob c) tick tick (omega arith) (inl refl) refl))
            (agree 0 1 1 (record { n_replica = 1; is_agree = false })
              (record { n_replica = 2; is_agree = true }) _ (1 ∷ 0 ∷ []) refl refl
              (λ v. ground arith) (omega arith, (omega arith, tt))
              (λ v h. elim (Bool-cases (1 == v)) [
                | inl one ↦ inr (
                  record { voter = 1; term = 1; index = 1 },
                  inl refl,
                  ground (arith, one),
                  refl,
                  omega arith,
                )
                | inr not_one ↦ inl (ground (arith, h, not_one))
              ])))
          (post 0 [] 1 1 1 1 (omega arith) refl refl (omega arith) (omega arith) refl))
        (receive 1 heartbeat tick tick (omega arith) (inl refl) refl)

leader_completeness_example :
    entry_at ((final nat_gob 9).network.cluster.peer 0) 1 ≡ some (first_entry nat_gob 9)
unfolding entry_at append_command handle_vote_reply start_election blank
leader_completeness_example =
    leader_completeness nat_gob 3 (system nat_gob 9 (idle nat_gob 9)) (final nat_gob 9) 1 0 1
      (first_entry nat_gob 9) (system-IsInitial nat_gob 9) (agreement nat_gob 9) refl (omega arith)
      (omega arith) (omega arith) refl

state_machine_safety_example :
    entry_at ((final nat_gob 9).network.cluster.peer 0) 1
    ≡ entry_at ((final nat_gob 9).network.cluster.peer 1) 1
unfolding append_command handle_vote_reply start_election blank
state_machine_safety_example =
    state_machine_safety nat_gob 3 (system nat_gob 9 (idle nat_gob 9)) (final nat_gob 9) 0 1 1
      (system-IsInitial nat_gob 9) (agreement nat_gob 9) (omega arith) (omega arith) (omega arith)

committed_applied_example :
    apply_entries ((final nat_gob 9).network.cluster.peer 0)
    ≡ some (record ((final nat_gob 9).network.cluster.peer 0) {
      last_applied = 1;
      apply_ch = ApplyMsg.valid (some 9) 1 1 ∷ [];
    })
unfolding append_command handle_vote_reply start_election blank
committed_applied_example =
    committed_applied nat_gob 3 (system nat_gob 9 (idle nat_gob 9)) (final nat_gob 9) 0
      (system-IsInitial nat_gob 9) (agreement nat_gob 9) (omega arith)

-- Put "x" under "a".
abbrev put_x : Op
put_x = record { type = put; key = "a"; value = "x"; client_id = 4; client_op_index = 1 }

abbrev leader_of_ops : Raft Op
leader_of_ops = (final op_gob put_x).network.cluster.peer 0

abbrev empty_server : KvServer
empty_server = record {
  me = 0;
  rf = leader_of_ops;
  maxraftstate = none;
  table = [];
  op_index = [];
  pending_ops = [];
  sent = [];
}

servers_agree_example :
    outcome op_gob table_gob
      (messages (up_to 1 ((final op_gob put_x).network.cluster.peer 0).log) 1)
      empty_server
    ≡ outcome op_gob table_gob
        (messages (up_to 1 ((final op_gob put_x).network.cluster.peer 1).log) 1)
        empty_server
servers_agree_example =
    servers_agree op_gob table_gob 3 (system op_gob put_x (idle op_gob put_x)) (final op_gob put_x)
      0 1 1 empty_server empty_server (system-IsInitial op_gob put_x) (agreement op_gob put_x)
      (omega arith) (omega arith) refl refl refl
