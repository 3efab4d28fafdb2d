-- ===== src/Tests/Service.antt =====
-- The theorems on the key-value service at a concrete server.
use mit.Prelude.{
  ℕ, ◌≡◌, refl, true, false, none, some, List, [], ◌∷◌, ◌++◌, arith, Bool, String, lookup,
  string_key, insert, ◌>>=◌,
}
use mit.Raft.Types.{follower, leader, Raft, Persister, LogEntry}
use mit.Raft.Local.{raft_state_size}
use mit.Raft.Snapshot.{take_snapshot}
use mit.Raft.Service.{make}
use mit.Kv.Types.{append, Op, Table, KvServer}
use mit.Kv.Server.{
  op_index_of, is_duplicate, execute, pending_at, is_take_snapshot, read_snapshot, apply, apply_all,
  start_kv_server,
}
use mit.Kv.Server.Exactly.{view, meaning, applied, execute_all, execute_refines, redelivery_ignored}
use mit.Kv.Server.Replies.{Answered, apply_answers}
use mit.Kv.Server.Snapshots.{
  Restored, snapshot_whatever_limit, read_snapshot_restores, restart_forgets_operations,
}
use mit.Kv.Early.Server as EarlyServer
use mit.Kv.Early.Upgrade.{Alike, early_messages, apply_all-Alike}
use mit.Tests.Encoders.{op_gob, table_gob}
use mit.Tests.Peers.{tick}

abbrev op_of : ℕ → ℕ → String → Op
op_of c i v = record { type = append; key = "a"; value = v; client_id = c; client_op_index = i }

abbrev old_log : List (LogEntry Op)
old_log = record { command = none; term = 0; index = 0 } ∷ []

abbrev disk : Persister
disk = record { raftstate = op_gob.encode_state 1 (some 0) old_log; snapshot = [] }

abbrev raft : Raft Op
raft = record {
  peers = 3;
  me = 0;
  persister = disk;
  apply_ch = [];
  signals = [];
  state = leader;
  leader_id = some 0;
  election_timeout = 600;
  heartbeat_period = 120;
  latest_issue_time = 0;
  latest_heard_time = 0;
  current_term = 1;
  vote_for = some 0;
  log = old_log;
  commit_index = 0;
  last_applied = 0;
  next_index = 1 ∷ 1 ∷ 1 ∷ [];
  match_index = 0 ∷ 0 ∷ 0 ∷ [];
  last_included_index = 0;
  last_included_term = none;
}

-- A server that leads, with "x" under "a" by the first operation of client 4, and with an operation
-- that waits under index 1.
abbrev server : KvServer
server = record {
  me = 0;
  rf = raft;
  maxraftstate = none;
  table = ("a", "x") ∷ [];
  op_index = (4, 1) ∷ [];
  pending_ops = (1, record { is_applied = 9; op = op_of 4 2 "y" } ∷ []) ∷ [];
  sent = [];
}

abbrev following : KvServer
following = record server { rf = record raft { state = follower } }

execute_refines_example :
    ((j : String)
      → view (execute (op_of 4 2 "y") server).table j
        ≡ meaning append "a" "y" (view server.table) j)
    × (applied 4 (execute (op_of 4 2 "y") server) ≡ 2)
unfolding lookup op_index_of
execute_refines_example = execute_refines (op_of 4 2 "y") server (omega arith)

redelivery_ignored_example :
    let kv = execute_all (op_of 5 1 "z" ∷ []) (execute (op_of 4 2 "y") server) in
    execute (op_of 4 2 "y") kv ≡ kv
redelivery_ignored_example = redelivery_ignored (op_of 4 2 "y") (op_of 5 1 "z" ∷ []) server

abbrev told : KvServer
told = record server { table = ("a", "xy") ∷ []; op_index = (4, 2) ∷ []; sent = (9, true) ∷ [] }

apply_answers_example :
    (told.table ≡ (execute (op_of 4 2 "y") server).table)
    × (told.op_index ≡ (execute (op_of 4 2 "y") server).op_index)
    × ((qs : List (ℕ × Bool)) × Answered (op_of 4 2 "y") (pending_at 1 server.pending_ops) qs
        × (told.sent ≡ server.sent ++ qs))
unfolding apply lookup insert
apply_answers_example = apply_answers op_gob table_gob (op_of 4 2 "y") 1 1 server told refl

-- The limit is above the six numbers of the saved state.
abbrev limited : KvServer
limited = record server { maxraftstate = some 100 }

snapshot_whatever_limit_example : is_take_snapshot op_gob table_gob 0 0 limited ≡ (
    take_snapshot op_gob 0 0 (table_gob.encode_table limited.table) limited.rf >>= λ rf'.
    some (record limited { rf = rf' }))
unfolding raft_state_size
snapshot_whatever_limit_example =
    snapshot_whatever_limit op_gob table_gob 0 0 100 limited refl (omega arith)

abbrev table : Table
table = ("a", "x") ∷ ("b", "y") ∷ []

abbrev two : Raft Op
two = record raft {
  log = old_log ++ record { command = some (op_of 4 1 "x"); term = 1; index = 1 } ∷ [];
}

abbrev two_compacted : Raft Op
two_compacted = record two {
  persister = record {
    raftstate =
        op_gob.encode_state 1 (some 0)
          (record { command = some (op_of 4 1 "x"); term = 1; index = 1 } ∷ []);
    snapshot = op_gob.encode_header 1 1 ++ table_gob.encode_table table;
  };
  log = record { command = some (op_of 4 1 "x"); term = 1; index = 1 } ∷ [];
  last_included_index = 1;
  last_included_term = some 1;
}

read_snapshot_restores_example :
    (kv : KvServer) × (read_snapshot op_gob table_gob two_compacted.persister.snapshot server
      ≡ some kv)
    × Restored op_gob table_gob 1 1 table server kv
unfolding take_snapshot
read_snapshot_restores_example =
    read_snapshot_restores op_gob table_gob 1 1 table server two two_compacted refl (omega arith)

abbrev saved : Persister
saved = record two_compacted.persister { raftstate = [] }

abbrev booted : Raft Op
booted = record raft {
  persister = saved;
  state = follower;
  leader_id = none;
  election_timeout = 650;
  latest_heard_time = 1000;
  current_term = 0;
  vote_for = none;
  next_index = 0 ∷ 0 ∷ 0 ∷ [];
}

restart_forgets_operations_example :
    (kv : KvServer) × (start_kv_server op_gob table_gob 3 0 saved none tick ≡ some kv)
    × (is_duplicate (op_of 4 1 "x") kv ≡ false)
unfolding make
restart_forgets_operations_example =
    restart_forgets_operations op_gob table_gob 3 0 1 1 none tick table saved booted (op_of 4 1 "x")
      refl refl (omega arith)

-- The same server in the stage before, with a peer of which it only keeps the name.
abbrev earlier : EarlyServer.KvServer ℕ
earlier = record {
  me = 0;
  rf = 0;
  maxraftstate = none;
  table = server.table;
  op_index = server.op_index;
  pending_ops = server.pending_ops;
  sent = server.sent;
}

apply_all-Alike_example :
    (old' : EarlyServer.KvServer ℕ) × (EarlyServer.apply_all
        (early_messages ((op_of 4 2 "y", 1, 1) ∷ []))
        earlier
      ≡ some old')
    × Alike old' told
unfolding apply_all apply lookup insert
apply_all-Alike_example =
    apply_all-Alike op_gob table_gob ((op_of 4 2 "y", 1, 1) ∷ []) earlier server told
      (record { table = refl; op_index = refl; pending_ops = refl; sent = refl }) refl
