-- ===== src/Kv/Server.antt =====
-- server.go: execOp, Get, PutAppend, Apply, and the snapshots of the table.
pub mod Exactly
pub mod Snapshots
pub mod Replies
use mit.Prelude.{
  ℕ, ◌*◌, ◌/◌, Bool, true, false, not, ◌&&◌, Option, none, some, List, [], ◌∷◌, ◌++◌, String, ltb,
  leb, ◌==◌, if◌then◌else◌, Dict, lookup, insert, delete, string_key, nat_key, ◌>>=◌,
}
use text.Mathlib.Text.{◌==◌ as str_eq}
use Prim.Native.String.{◌++◌ as str_append}
use mit.Raft.Types.{Bytes, Raft, Persister, Tick, ApplyMsg}
use mit.Raft.Gob.{Gob}
use mit.Raft.Local.{raft_state_size}
use mit.Raft.Snapshot.{take_snapshot}
use mit.Raft.Service.{start, make}
use mit.Kv.Types.{
  ok, err_no_key, err_not_leader, time_out_or_other, PutAppendArgs, PutAppendReply, GetArgs,
  GetReply, OpType, get, append, put, Op, PendingOp, Table, KvServer, TableGob,
}

-- A read of a Go map of numbers or slices gives the zero value on a missing key.
unfoldable pub op_index_of : ℕ → Dict ℕ ℕ → ℕ
op_index_of c m = elim (lookup c m) [ some i ↦ i | none ↦ 0 ]

unfoldable pub pending_at : ℕ → Dict ℕ (List PendingOp) → List PendingOp
pending_at i m = elim (lookup i m) [ some l ↦ l | none ↦ [] ]

-- OP_APPEND: on a missing key it writes the value alone.
unfoldable pub append_value : String → String → Table → Table
append_value k v t = elim (lookup k t) [
  | some val ↦ insert k (str_append val v) t
  | none ↦ insert k v t
]

-- The switch of Apply on the operation's type.
unfoldable pub apply_by_type : OpType → String → String → Table → Table
unfolding append_value
apply_by_type put k v t = insert k v t
apply_by_type append k v t = append_value k v t
apply_by_type get k v t = t

-- An operation that its client has numbered no higher than one already applied is a duplicate.
unfoldable pub is_duplicate : Op → KvServer → Bool
unfolding op_index_of
is_duplicate op kv = leb op.client_op_index (op_index_of op.client_id kv.op_index)

-- The part of Apply that changes the table.
unfoldable pub execute : Op → KvServer → KvServer
unfolding is_duplicate apply_by_type
execute op kv = if is_duplicate op kv then kv else record kv {
  table = apply_by_type op.type op.key op.value kv.table;
  op_index = insert op.client_id op.client_op_index kv.op_index;
}

unfoldable pub same_op : Op → Op → Bool
same_op p op = p.client_id == op.client_id && p.client_op_index == op.client_op_index

-- The loop of Apply that answers the operations pending at the index.
unfoldable pub answers : Op → List PendingOp → List (ℕ × Bool)
unfolding same_op
answers op [] = []
answers op (p ∷ ps) = (p.is_applied, same_op p.op op) ∷ answers op ps

unfoldable pub notify : Op → ℕ → KvServer → KvServer
unfolding answers pending_at
notify op index kv = record kv { sent = kv.sent ++ answers op (pending_at index kv.pending_ops) }

-- `portion := 2 / 3`, on integers
unfoldable pub portion : ℕ
portion = 2 / 3

-- A section of execOp: the operation waits under its index, behind those that wait there already.
unfoldable pub register : ℕ → ℕ → Op → KvServer → KvServer
unfolding pending_at
register chan index op kv = record kv {
  pending_ops =
      insert index (pending_at index kv.pending_ops ++ record { is_applied = chan; op = op } ∷ [])
        kv.pending_ops;
}

-- How the select of execOp ends: by what Apply sent, or by the timer.
pub data Wait : Type 0 where
  answered : Bool → Wait
  timeout : Wait

unfoldable waited : Wait → Bool
waited (answered b) = b
waited timeout = false

-- The last section of execOp: all that wait under the index are dropped.
unfoldable pub unregister : ℕ → KvServer → KvServer
unregister index kv = record kv { pending_ops = delete index kv.pending_ops }

-- The operations that Get and PutAppend build from their arguments.
unfoldable get_op : GetArgs → Op
get_op args = record {
  type = get;
  key = args.key;
  value = "";
  client_id = args.client_id;
  client_op_index = args.client_op_index;
}

unfoldable put_append_op : PutAppendArgs → Op
put_append_op args = record {
  type = if str_eq args.op "Put" then put else append;
  key = args.key;
  value = args.value;
  client_id = args.client_id;
  client_op_index = args.client_op_index;
}

-- What Get replies after execOp, from its two results: success and isLeader.
unfoldable pub get_reply : String → Bool → Bool → KvServer → GetReply
get_reply key true is_leader kv = elim (lookup key kv.table) [
  | some v ↦ record { wrong_leader = not is_leader; err = ok; value = v }
  | none ↦ record { wrong_leader = not is_leader; err = err_no_key; value = "" }
]
get_reply key false is_leader kv = record {
  wrong_leader = not is_leader;
  err = if not is_leader then err_not_leader else time_out_or_other;
  value = "";
}

-- What PutAppend replies after execOp.
unfoldable pub put_append_reply : Bool → Bool → PutAppendReply
put_append_reply true is_leader = record { wrong_leader = not is_leader; err = ok }
put_append_reply false is_leader = record {
  wrong_leader = not is_leader;
  err = if not is_leader then err_not_leader else time_out_or_other;
}

module _ (gob : Gob Op) where
  -- execOp up to its wait, with no other section between Start and the registration: the index
  -- under which it waits, or `none` if the peer is no leader.
  unfoldable pub begin_op : ℕ → ℕ → Op → KvServer → KvServer × Option ℕ
  unfolding start register
  begin_op chan now op kv =
      let (rf', index, term, is_leader) = start gob op now kv.rf in
      let kv' = record kv { rf = rf' } in
      elim index [ none ↦ (kv', none) | some i ↦ (register chan i op kv', some i) ]

-- The server that StartKVServer fills in before it reads a snapshot.
unfoldable pub new_kv_server : ℕ → Raft Op → Option ℕ → KvServer
new_kv_server me rf maxraftstate = record {
  me = me;
  rf = rf;
  maxraftstate = maxraftstate;
  table = [];
  op_index = [];
  pending_ops = [];
  sent = [];
}

module _ (gob : Gob Op) (tables : TableGob) where
  -- readSnapshot; `none` is log.Fatal
  unfoldable pub read_snapshot : Bytes → KvServer → Option KvServer
  read_snapshot [] kv = some kv
  read_snapshot (b ∷ bs) kv = do
    (index, term, rest) ← gob.decode_header (b ∷ bs)
    t ← tables.decode_table rest kv.table
    let rf = kv.rf
    some (record kv {
      table = t;
      rf = record rf {
        last_included_index = index;
        last_included_term = some term;
        commit_index = index;
        last_applied = index;
      };
    })

  -- isTakeSnapshot
  unfoldable pub is_take_snapshot : ℕ → ℕ → KvServer → Option KvServer
  unfolding raft_state_size portion
  is_take_snapshot index term kv = elim kv.maxraftstate [
    | none ↦ some kv
    | some m ↦
        if ltb (m * portion) (raft_state_size kv.rf.persister)
        then (take_snapshot gob index term (tables.encode_table kv.table) kv.rf >>= λ rf'.
            some (record kv { rf = rf' }))
        else some kv
  ]

  -- Apply. A command that is no Op makes the type assertion panic.
  unfoldable pub apply : ApplyMsg Op → KvServer → Option KvServer
  unfolding read_snapshot is_take_snapshot execute notify
  apply (ApplyMsg.snapshot d) kv = read_snapshot d kv
  apply (ApplyMsg.valid none index term) kv = none
  apply (ApplyMsg.valid (some op) index term) kv = do
    kv' ← is_take_snapshot index term (execute op kv)
    some (notify op index kv')

  -- The loop of the goroutine that StartKVServer starts, over the messages that arrive.
  unfoldable pub apply_all : List (ApplyMsg Op) → KvServer → Option KvServer
  unfolding apply
  apply_all [] kv = some kv
  apply_all (m ∷ ms) kv = apply m kv >>= λ kv'. apply_all ms kv'

  -- StartKVServer
  unfoldable pub start_kv_server : ℕ → ℕ → Persister → Option ℕ → Tick → Option KvServer
  unfolding new_kv_server
  start_kv_server servers me persister maxraftstate tick = do
    rf ← make gob servers me persister tick
    read_snapshot persister.snapshot (new_kv_server me rf maxraftstate)
