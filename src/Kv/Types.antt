-- ===== src/Kv/Types.antt =====
-- common.go and the data of server.go and client.go. Client ids and operation numbers (int64) are
-- counted from 0, and are ℕ; a channel is known by a number.
use mit.Prelude.{ℕ, Bool, ◌≡◌, Option, none, some, List, String, Dict, lookup, string_key}
use mit.Raft.Types.{Bytes, Raft}

-- Err; `unset` is the zero value "" of a reply that no handler has written
pub data Err : Type 0 where
  unset ok err_no_key err_not_leader time_out_or_other : Err

pub record PutAppendArgs : Type 0 where
  pub key : String
  pub value : String
  pub op : String  -- "Put" or "Append"
  pub client_id : ℕ
  pub client_op_index : ℕ

pub record PutAppendReply : Type 0 where
  pub wrong_leader : Bool
  pub err : Err

pub record GetArgs : Type 0 where
  pub key : String
  pub client_id : ℕ
  pub client_op_index : ℕ

pub record GetReply : Type 0 where
  pub wrong_leader : Bool
  pub err : Err
  pub value : String

-- OP_GET, OP_APPEND, OP_PUT
pub data OpType : Type 0 where
  get append put : OpType

pub record Op : Type 0 where
  pub type : OpType
  pub key : String
  pub value : String
  pub client_id : ℕ
  pub client_op_index : ℕ

pub record PendingOp : Type 0 where
  pub is_applied : ℕ  -- the channel
  pub op : Op

abbrev pub Table : Type 0
Table = Dict String String

pub record KvServer : Type 0 where
  pub me : ℕ
  pub rf : Raft Op
  pub maxraftstate : Option ℕ  -- `none` for -1
  pub table : Table  -- data
  pub op_index : Dict ℕ ℕ
  pub pending_ops : Dict ℕ (List PendingOp)
  pub sent : List (ℕ × Bool)  -- what was sent on the channels of pending operations, oldest first

abbrev pub or_else {ℓ} : {A : Type ℓ} → Option A → Option A → Option A
or_else (some a) o = some a
or_else none o = o

-- labgob on the table. Its documented behaviour: decoding into a map that is not nil keeps the keys
-- that the bytes do not mention, and overwrites those that they do.
pub record TableGob : Type 0 where
  pub encode_table : Table → Bytes
  pub decode_table : Bytes → Table → Option Table
  pub decode_table-encode_table :
      (t old : Table)
      → (new : Table) × (decode_table (encode_table t) old ≡ some new)
        × ((k : String) → lookup k new ≡ or_else (lookup k t) (lookup k old))
