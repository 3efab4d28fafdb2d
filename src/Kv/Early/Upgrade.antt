-- ===== src/Kv/Early/Upgrade.antt =====
-- The service of PartA beside that of PartB.
use mit.Prelude.{
  ℕ, ◌≡◌, refl, ap, false, none, some, Option, List, [], ◌∷◌, arith, All, String, Option-cases, inl,
  inr, lookup, string_key, map, >>=-eq-some, ◌>>=◌, ◌∙◌,
}
use Prim.Native.String.append as string_append
use mit.Raft.Types
use mit.Raft.Gob.{Gob}
use mit.Kv.Types.{Op, OpType, get, append, put, KvServer, TableGob, Table, GetReply, PutAppendReply}
use mit.Kv.Server.{
  is_take_snapshot, execute, apply, apply_all, apply_by_type, notify, is_duplicate, append_value,
}
use mit.Kv.Server.Replies.{is_take_snapshot_frame}
use mit.Kv.Clerk
use mit.Kv.Clerk.{Clerk, is_time_out}
use mit.Kv.Early.Server
use mit.Kv.Early.Clerk as EarlyClerk

apply_by_type_same :
    (type : OpType) (k v : String) (t : Table)
    → Server.apply_by_type type k v t ≡ apply_by_type type k v t
unfolding Server.apply_by_type Server.value_of apply_by_type append_value
apply_by_type_same get k v t = refl
apply_by_type_same put k v t = refl
apply_by_type_same append k v t = elim (Option-cases (lookup k t)) [
  | inl missing ↦
      rw
        (
          Server.apply_by_type, Server.value_of, apply_by_type, append_value, missing,
          string_append.nil,
        )
        refl
  | inr (old, e) ↦ rw (Server.apply_by_type, Server.value_of, apply_by_type, append_value, e) refl
]

-- The same tables, whatever peers they are served with.
pub record Alike {R : Type 0} (old : Server.KvServer R) (kv : KvServer) : Type 0 where
  pub table : old.table ≡ kv.table
  pub op_index : old.op_index ≡ kv.op_index
  pub pending_ops : old.pending_ops ≡ kv.pending_ops
  pub sent : old.sent ≡ kv.sent

-- What the two stages read of the messages of a peer: commands, each with its index and its term.
abbrev pub early_messages : List (Op × ℕ × ℕ) → List Server.ApplyMsg
early_messages = map (λ (op, index, term). record { command = some op; command_index = index })

abbrev pub messages : List (Op × ℕ × ℕ) → List (Types.ApplyMsg Op)
messages = map (λ (op, index, term). Types.ApplyMsg.valid (some op) index term)

module _ {R : Type 0} where
  execute-Alike :
      (op : Op) (old : Server.KvServer R) (kv : KvServer)
      → Alike old kv
      → Alike (Server.execute op old) (execute op kv)
  unfolding Server.execute Server.is_duplicate execute is_duplicate
  execute-Alike op old kv a = ground (arith, a, apply_by_type_same op.type op.key op.value kv.table)

  notify-Alike :
      (op : Op) (index : ℕ) (old : Server.KvServer R) (kv : KvServer)
      → Alike old kv
      → Alike (Server.notify op index old) (notify op index kv)
  unfolding Server.notify notify
  notify-Alike op index old kv a = ground (arith, a)

  module _ (gob : Gob Op) (tables : TableGob) where
    apply-Alike :
        (op : Op) (index term : ℕ) (old : Server.KvServer R) (kv kv' : KvServer)
        → Alike old kv
        → apply gob tables (Types.ApplyMsg.valid (some op) index term) kv ≡ some kv'
        → (old' : Server.KvServer R) × (Server.apply
              (record { command = some op; command_index = index })
              old
            ≡ some old')
          × Alike old' kv'
    unfolding apply Server.apply
    apply-Alike op index term old kv kv' a h =
        let (kv₁, taken, told) =
          >>=-eq-some (is_take_snapshot gob tables index term (execute op kv)) _ h in
        let executed = execute-Alike op old kv a in
        let frame = is_take_snapshot_frame gob tables index term (execute op kv) kv₁ taken in
        let kept : Alike (Server.execute op old) kv₁ = ground (arith, executed, frame) in
        let notified = notify-Alike op index (Server.execute op old) kv₁ kept in
        (_, refl, ground (arith, notified, told))

    -- From the same tables, and by the same commands, the server of Lab3_KV_Raft/PartA comes to the same
    -- table, the same numbers of its clients and the same answers to the operations that wait as that of
    -- PartB, whatever snapshots that one takes in between.
    pub apply_all-Alike :
        (ms : List (Op × ℕ × ℕ)) (old : Server.KvServer R) (kv kv' : KvServer)
        → Alike old kv
        → apply_all gob tables (messages ms) kv ≡ some kv'
        → (old' : Server.KvServer R) × (Server.apply_all (early_messages ms) old ≡ some old')
          × Alike old' kv'
    unfolding apply_all Server.apply_all
    apply_all-Alike [] old kv kv' a h = (old, refl, ground (arith, a, h))
    apply_all-Alike ((op, index, term) ∷ ms) old kv kv' a h =
        let (kv₁, first, rest) =
          >>=-eq-some (apply gob tables (Types.ApplyMsg.valid (some op) index term) kv) _ h in
        let (old₁, e, a₁) = apply-Alike op index term old kv kv₁ a first in
        let (old', e', a') = apply_all-Alike ms old₁ kv₁ kv' a₁ rest in
        (old', ap (λ m. m >>= λ s. Server.apply_all (early_messages ms) s) e ∙ e', a')

-- A Get of PartA asks the same servers as one of PartB, and returns the same.
get_alike :
    (key : String) (rs : List (Option GetReply)) (ck : Clerk)
    → EarlyClerk.get key rs ck ≡ Clerk.get key rs ck
unfolding EarlyClerk.get Clerk.get EarlyClerk.get_loop Clerk.get_loop EarlyClerk.get_answer
    EarlyClerk.after_get Clerk.after_get
get_alike key rs ck = loop rs (Clerk.count_op ck)
  where
    loop :
        (qs : List (Option GetReply)) (c : Clerk) → EarlyClerk.get_loop qs c ≡ Clerk.get_loop qs c
    loop [] c = refl
    loop (none ∷ qs) c = loop qs (Clerk.next_server c)
    loop (some r ∷ qs) c = ground (arith, loop qs (Clerk.after_get r c))

-- So does a PutAppend, where no reply reports a timeout: there PartA stays with the server that PartB
-- leaves.
put_append_alike :
    (key value op : String) (rs : List (Option PutAppendReply)) (ck : Clerk)
    → All (λ r. is_time_out (EarlyClerk.put_append_answer r).err ≡ false) rs
    → EarlyClerk.put_append key value op rs ck ≡ Clerk.put_append key value op rs ck
unfolding EarlyClerk.put_append Clerk.put_append EarlyClerk.put_append_loop Clerk.put_append_loop
    EarlyClerk.put_append_answer EarlyClerk.after_put_append Clerk.after_put_append
put_append_alike key value op rs ck h = loop rs (Clerk.count_op ck) h
  where
    loop :
        (qs : List (Option PutAppendReply)) (c : Clerk)
        → All (λ r. is_time_out (EarlyClerk.put_append_answer r).err ≡ false) qs
        → EarlyClerk.put_append_loop qs c ≡ Clerk.put_append_loop qs c
    loop [] c all = refl
    loop (none ∷ qs) c all = loop qs (Clerk.next_server c) all.1
    loop (some r ∷ qs) c all = ground (arith, loop qs (Clerk.after_put_append r c) all.1, all.0)
