-- ===== src/Kv/Server/Replies.antt =====
-- Whom Apply answers, and what Get and PutAppend make of the answer.
use mit.Prelude.{
  ℕ, ◌+◌, ◌≡◌, ◌↔◌, true, false, not, Bool, none, some, List, [], ◌∷◌, ◌++◌, arith, String, lookup,
  string_key, nat_key, length, lookup-insert_self, >>=-eq-some,
}
use mit.Raft.Types.{ApplyMsg}
use mit.Raft.Gob.{Gob}
use mit.Raft.Local.{is_leader}
use mit.Kv.Types.{
  Op, PendingOp, KvServer, TableGob, ok, err_no_key, err_not_leader, time_out_or_other,
}
use mit.Kv.Server.{
  same_op, answers, pending_at, is_take_snapshot, execute, apply, begin_op, get_reply,
  put_append_reply,
}

-- The operations that wait and what each is answered on its channel: true to those of the client and
-- number of the operation that was applied, false to the others.
pub data Answered (op : Op) : List PendingOp → List (ℕ × Bool) → Type 0 where
  nobody : Answered op [] []
  one_more :
      {p : PendingOp} {ps : List PendingOp} {b : Bool} {qs : List (ℕ × Bool)}
      → (b ≡ true) ↔ ((p.op.client_id ≡ op.client_id) × (p.op.client_op_index ≡ op.client_op_index))
      → Answered op ps qs
      → Answered op (p ∷ ps) ((p.is_applied, b) ∷ qs)

answers_lem : (op : Op) (ps : List PendingOp) → Answered op ps (answers op ps)
unfolding answers same_op
answers_lem op [] = nobody
answers_lem op (p ∷ ps) = one_more (ground arith) (answers_lem op ps)

module _ (gob : Gob Op) (tables : TableGob) where
  pub is_take_snapshot_frame :
      (index term : ℕ) (kv kv' : KvServer)
      → is_take_snapshot gob tables index term kv ≡ some kv'
      → (kv'.sent ≡ kv.sent)
        × (kv'.pending_ops ≡ kv.pending_ops)
        × (kv'.table ≡ kv.table)
        × (kv'.op_index ≡ kv.op_index)
  unfolding is_take_snapshot
  is_take_snapshot_frame index term kv kv' h = ground arith

  execute_frame :
      (op : Op) (kv : KvServer)
      → ((execute op kv).sent ≡ kv.sent) × ((execute op kv).pending_ops ≡ kv.pending_ops)
  unfolding execute
  execute_frame op kv = ground arith

  -- Apply of an operation leaves the table and the clients' numbers that `execute` gives, and answers
  -- each operation that waits under the index of the message once: with true exactly to those of the
  -- same client and number, with false to the others.
  pub apply_answers :
      (op : Op) (index term : ℕ) (kv kv' : KvServer)
      → apply gob tables (ApplyMsg.valid (some op) index term) kv ≡ some kv'
      → (kv'.table ≡ (execute op kv).table)
        × (kv'.op_index ≡ (execute op kv).op_index)
        × ((qs : List (ℕ × Bool)) × Answered op (pending_at index kv.pending_ops) qs
            × (kv'.sent ≡ kv.sent ++ qs))
  unfolding apply
  apply_answers op index term kv kv' h =
      let (kv₁, taken, told) =
        >>=-eq-some (is_take_snapshot gob tables index term (execute op kv)) _ h in
      let frame = is_take_snapshot_frame index term (execute op kv) kv₁ taken in
      let same = execute_frame op kv in
      (
        ground (arith, frame),
        ground (arith, frame),
        (
          answers op (pending_at index kv.pending_ops),
          answers_lem op (pending_at index kv.pending_ops),
          ground (arith, frame, same),
        ),
      )

module _ (gob : Gob Op) where
  -- On a peer that leads, an operation waits under the index that Start gives it, behind those that
  -- wait there.
  begin_op_waits :
      (chan now : ℕ) (op : Op) (kv : KvServer)
      → is_leader kv.rf ≡ true
      → ((begin_op gob chan now op kv).1 ≡ some (length kv.rf.log + kv.rf.last_included_index))
        × (pending_at
              (length kv.rf.log + kv.rf.last_included_index)
              (begin_op gob chan now op kv).0.pending_ops
            ≡ pending_at (length kv.rf.log + kv.rf.last_included_index) kv.pending_ops
              ++ record { is_applied = chan; op = op } ∷ [])
  unfolding begin_op
  begin_op_waits chan now op kv l = (
    ground arith,
    ground (
      arith,
      lookup-insert_self (length kv.rf.log + kv.rf.last_included_index)
          (pending_at (length kv.rf.log + kv.rf.last_included_index) kv.pending_ops
            ++ record { is_applied = chan; op = op } ∷ [])
          kv.pending_ops,
    ),
  )

  -- On a peer that does not lead, an operation changes nothing and does not wait.
  begin_op_refused :
      (chan now : ℕ) (op : Op) (kv : KvServer)
      → is_leader kv.rf ≡ false
      → begin_op gob chan now op kv ≡ (kv, none)
  unfolding begin_op
  begin_op_refused chan now op kv l = ground arith

-- The error of a reply, on every outcome of execOp: a peer that does not lead says so, an operation
-- that was not applied in time is reported as such, PutAppend succeeds on every operation that was
-- applied, and Get on those whose key has a value, which it returns.
replies_lem :
    (key : String) (success is_leader : Bool) (kv : KvServer)
    → let g = get_reply key success is_leader kv in
      let p = put_append_reply success is_leader in
      (g.wrong_leader ≡ not is_leader)
      × (p.wrong_leader ≡ not is_leader)
      × ((p.err ≡ ok) ↔ (success ≡ true))
      × ((v : String)
          → ((g.err ≡ ok) × (g.value ≡ v)) ↔ ((success ≡ true) × (lookup key kv.table ≡ some v)))
      × ((g.err ≡ err_no_key) ↔ ((success ≡ true) × (lookup key kv.table ≡ none)))
      × ((p.err ≡ err_not_leader) ↔ ((success ≡ false) × (is_leader ≡ false)))
      × ((p.err ≡ time_out_or_other) ↔ ((success ≡ false) × (is_leader ≡ true)))
unfolding get_reply put_append_reply
replies_lem key success is_leader kv = (
  ground arith,
  ground arith,
  ground arith,
  λ v. ground arith,
  ground arith,
  ground arith,
  ground arith,
)
