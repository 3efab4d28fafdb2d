-- ===== src/Kv/Server/Snapshots.antt =====
-- The snapshots of the service: when they are taken, what a restart reads back, and what it forgets.
use mit.Prelude.{
  ℕ, ◌≡◌, refl, sym, ◌<◌, false, Option, some, [], ◌∷◌, ◌++◌, arith, String, lookup, string_key,
  nat_key, ◌*◌, lt→ltb, ◌>>=◌,
}
use mit.Raft.Types.{Bytes, Persister, Tick, Raft}
use mit.Raft.Gob.{Gob}
use mit.Raft.Local.{raft_state_size}
use mit.Raft.Snapshot.{take_snapshot}
use mit.Raft.Snapshot.Compaction.{take_snapshot-Compacted}
use mit.Raft.Service.{make}
use mit.Kv.Types.{Op, Table, KvServer, TableGob, or_else}
use mit.Kv.Server.{
  portion, is_duplicate, is_take_snapshot, read_snapshot, start_kv_server, new_kv_server,
}

module _ (gob : Gob Op) (tables : TableGob) where
  -- With a limit set, the service compacts its log after every operation as soon as anything is
  -- saved, however large the limit: the factor 2 / 3 of the limit is 0.
  pub snapshot_whatever_limit :
      (index term limit : ℕ) (kv : KvServer)
      → kv.maxraftstate ≡ some limit
      → 0 < raft_state_size kv.rf.persister
      → is_take_snapshot gob tables index term kv ≡ (
          take_snapshot gob index term (tables.encode_table kv.table) kv.rf >>= λ rf'.
          some (record kv { rf = rf' }))
  unfolding is_take_snapshot
  snapshot_whatever_limit index term limit kv m h =
      ground (arith, lt→ltb (limit * portion) (raft_state_size kv.rf.persister))

  pub record Restored (index term : ℕ) (t : Table) (kv kv' : KvServer) : Type 0 where
    keys : (k : String) → lookup k kv'.table ≡ or_else (lookup k t) (lookup k kv.table)
    pub base : kv'.rf.last_included_index ≡ index
    base_term : kv'.rf.last_included_term ≡ some term
    pub commit : kv'.rf.commit_index ≡ index
    pub applied : kv'.rf.last_applied ≡ index
    pub ops : kv'.op_index ≡ kv.op_index

  read_bytes :
      (index term : ℕ) (t : Table) (kv : KvServer) (b : Bytes)
      → b ≡ gob.encode_header index term ++ tables.encode_table t
      → (kv' : KvServer) × (read_snapshot gob tables b kv ≡ some kv') × Restored index term t kv kv'
  unfolding read_snapshot
  read_bytes index term t kv [] e =
      absurd (gob.encode_header-ne-nil index term (tables.encode_table t) (sym e))
  read_bytes index term t kv (b ∷ bs) e =
      let (new, decoded, keys) = tables.decode_table-encode_table t kv.table in
      let rf = kv.rf in
      (
        record kv {
          table = new;
          rf = record rf {
            last_included_index = index;
            last_included_term = some term;
            commit_index = index;
            last_applied = index;
          };
        },
        rw (e, gob.decode_header-encode_header) (rw decoded refl),
        record {
          keys = keys;
          base = refl;
          base_term = refl;
          commit = refl;
          applied = refl;
          ops = refl;
        },
      )

  -- What TakeSnapshot at an index above the last snapshot's saves for a table, the service reads
  -- back: each key of the table has its value again, any other key is as it was before, and Raft's
  -- indexes are those of the snapshot. The numbers of the clients' last operations are not in it,
  -- and stay as they were before.
  pub read_snapshot_restores :
      (index term : ℕ) (t : Table) (kv : KvServer) (rf rf' : Raft Op)
      → take_snapshot gob index term (tables.encode_table t) rf ≡ some rf'
      → rf.last_included_index < index
      → (kv' : KvServer) × (read_snapshot gob tables rf'.persister.snapshot kv ≡ some kv')
        × Restored index term t kv kv'
  read_snapshot_restores index term t kv rf rf' h lt =
      read_bytes index term t kv rf'.persister.snapshot
        (take_snapshot-Compacted gob index term (tables.encode_table t) rf rf' h lt).disk

  -- A server that restarts with a snapshot forgets which operations it has applied: whatever
  -- operation its clients repeat (their numbers begin at 1), it takes for a new one.
  pub restart_forgets_operations :
      (servers me index term : ℕ) (limit : Option ℕ) (tick : Tick) (t : Table) (ps : Persister)
      (rf : Raft Op) (op : Op)
      → make gob servers me ps tick ≡ some rf
      → ps.snapshot ≡ gob.encode_header index term ++ tables.encode_table t
      → 0 < op.client_op_index
      → (kv : KvServer) × (start_kv_server gob tables servers me ps limit tick ≡ some kv)
        × (is_duplicate op kv ≡ false)
  unfolding start_kv_server is_duplicate lookup
  restart_forgets_operations servers me index term limit tick t ps rf op h e new =
      let (kv, read, restored) =
        read_bytes index term t (new_kv_server me rf limit) ps.snapshot e in
      (kv, rw h read, ground (arith, restored.ops))
