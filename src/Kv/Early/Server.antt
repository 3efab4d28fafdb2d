-- ===== src/Kv/Early/Server.antt =====
-- Lab3_KV_Raft/PartA/server.go. Which package raft it is built with is left open: a peer is of any
-- type `R`, with Start as a parameter. The types of common.go, Op and PendingOps are those of PartB, and
-- so is what both stages build from the arguments of a call.
use mit.Prelude.{
  ℕ, Bool, true, false, not, Option, none, some, List, [], ◌∷◌, ◌++◌, String, leb, if◌then◌else◌,
  Dict, lookup, insert, delete, string_key, nat_key, ◌>>=◌,
}
use Prim.Native.String.{◌++◌ as str_append}
use mit.Kv.Types.{
  ok, err_no_key, err_not_leader, time_out_or_other, GetReply, OpType, get, append, put, Op,
  PendingOp, Table,
}
use mit.Kv.Server.{op_index_of, pending_at, answers}

pub record KvServer (R : Type 0) : Type 0 where
  pub me : ℕ
  pub rf : R
  pub maxraftstate : Option ℕ  -- `none` for -1
  pub table : Table  -- data
  pub op_index : Dict ℕ ℕ
  pub pending_ops : Dict ℕ (List PendingOp)
  pub sent : List (ℕ × Bool)  -- what was sent on the channels of pending operations, oldest first

-- A message on applyCh: Command (`none` for what is no Op) and CommandIndex.
pub record ApplyMsg : Type 0 where
  pub command : Option Op
  pub command_index : ℕ

-- kv.data[op.Key]: the empty string on a missing key
unfoldable pub value_of : String → Table → String
value_of k t = elim (lookup k t) [ some v ↦ v | none ↦ "" ]

-- The switch of Apply on the operation's type.
unfoldable pub apply_by_type : OpType → String → String → Table → Table
unfolding value_of
apply_by_type put k v t = insert k v t
apply_by_type append k v t = insert k (str_append (value_of k t) v) t
apply_by_type get k v t = t

module _ {R : Type 0} where
  unfoldable pub is_duplicate : Op → KvServer R → Bool
  unfolding op_index_of
  is_duplicate op kv = leb op.client_op_index (op_index_of op.client_id kv.op_index)

  -- The part of Apply that changes the table.
  unfoldable pub execute : Op → KvServer R → KvServer R
  unfolding is_duplicate apply_by_type
  execute op kv = if is_duplicate op kv then kv else record kv {
    table = apply_by_type op.type op.key op.value kv.table;
    op_index = insert op.client_id op.client_op_index kv.op_index;
  }

  -- The loop of Apply that answers the operations pending at the index.
  unfoldable pub notify : Op → ℕ → KvServer R → KvServer R
  unfolding answers pending_at
  notify op index kv = record kv { sent = kv.sent ++ answers op (pending_at index kv.pending_ops) }

  -- Apply. A command that is no Op makes the type assertion panic.
  unfoldable pub apply : ApplyMsg → KvServer R → Option (KvServer R)
  unfolding execute notify
  apply msg kv = do op ← msg.command; some (notify op msg.command_index (execute op kv))

  -- A section of execOp: the operation waits under its index.
  unfoldable pub register : ℕ → ℕ → Op → KvServer R → KvServer R
  unfolding pending_at
  register chan index op kv = record kv {
    pending_ops =
        insert index (pending_at index kv.pending_ops ++ record { is_applied = chan; op = op } ∷ [])
          kv.pending_ops;
  }

  -- The last section of execOp: all that wait under the index are dropped.
  unfoldable pub unregister : ℕ → KvServer R → KvServer R
  unregister index kv = record kv { pending_ops = delete index kv.pending_ops }

  -- execOp up to its wait, with no other section between Start and the registration: the index
  -- under which it waits, or `none` if the peer is no leader.
  unfoldable pub begin_op :
      (Op → R → R × Option ℕ × ℕ × Bool) → ℕ → Op → KvServer R → KvServer R × Option ℕ
  unfolding register
  begin_op start chan op kv =
      let (rf', index, term, is_leader) = start op kv.rf in
      let kv' = record kv { rf = rf' } in
      elim index [ none ↦ (kv', none) | some i ↦ (register chan i op kv', some i) ]

  -- What Get replies after execOp, from its two results: success and isLeader.
  unfoldable pub get_reply : String → Bool → Bool → KvServer R → GetReply
  get_reply key true is_leader kv = elim (lookup key kv.table) [
    | some v ↦ record { wrong_leader = not is_leader; err = ok; value = v }
    | none ↦ record { wrong_leader = not is_leader; err = err_no_key; value = "" }
  ]
  get_reply key false is_leader kv = record {
    wrong_leader = not is_leader;
    err = if not is_leader then err_not_leader else time_out_or_other;
    value = "";
  }

  -- StartKVServer, with the peer that raft.Make gives.
  unfoldable pub start_kv_server : ℕ → R → Option ℕ → KvServer R
  start_kv_server me rf maxraftstate = record {
    me = me;
    rf = rf;
    maxraftstate = maxraftstate;
    table = [];
    op_index = [];
    pending_ops = [];
    sent = [];
  }

  -- The loop of the goroutine that StartKVServer starts, over the messages that arrive.
  unfoldable pub apply_all : List ApplyMsg → KvServer R → Option (KvServer R)
  unfolding apply
  apply_all [] kv = some kv
  apply_all (m ∷ ms) kv = apply m kv >>= λ kv'. apply_all ms kv'
