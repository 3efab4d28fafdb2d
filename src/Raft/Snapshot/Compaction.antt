-- ===== src/Raft/Snapshot/Compaction.antt =====
-- Compaction: what TakeSnapshot and InstallSnapshot keep of the log.
use mit.Prelude.{
  ℕ, ◌+◌, ◌-◌, ◌≡◌, ◌≢◌, ◌≤◌, ◌<◌, ◌⊎◌, inl, inr, none, some, [], ◌∷◌, ◌++◌, arith, length, drop,
  get_elem?-drop, length-drop, max,
}
use native.Mathlib.Decide.{dec_lt}
use mit.Raft.Types.{Bytes, ApplyMsg, Raft, InstallSnapshotArgs, InstallSnapshotReply}
use mit.Raft.Gob.{Gob}
use mit.Raft.Local.{entry_at, last_log_index}
use mit.Raft.Snapshot.{take_snapshot, install_snapshot}

module _ {C : Type 0} (gob : Gob C) where
  pub record Compacted (index term : ℕ) (kvs : Bytes) (rf rf' : Raft C) : Type 0 where
    pub base : rf'.last_included_index ≡ index
    pub last_term : rf'.last_included_term ≡ some term
    pub above : rf.last_included_index < index
    pub within : index - rf.last_included_index ≤ length rf.log
    pub rest : rf'.log ≡ drop (index - rf.last_included_index) rf.log
    pub disk : rf'.persister.snapshot ≡ gob.encode_header index term ++ kvs

  pub take_snapshot-Compacted :
      (index term : ℕ) (kvs : Bytes) (rf rf' : Raft C)
      → take_snapshot gob index term kvs rf ≡ some rf'
      → rf.last_included_index < index
      → Compacted index term kvs rf rf'
  unfolding take_snapshot
  take_snapshot-Compacted index term kvs rf rf' h lt = ground arith

  -- TakeSnapshot at an index above the last snapshot's and within the log saves the snapshot behind
  -- its index and term, and forgets no entry at or above the index of the snapshot: each stands at
  -- the same index as before, and the last index stays the same.
  pub take_snapshot_keeps_tail :
      (index term : ℕ) (kvs : Bytes) (rf rf' : Raft C)
      → take_snapshot gob index term kvs rf ≡ some rf'
      → rf.last_included_index < index
      → index < rf.last_included_index + length rf.log
      → (rf'.last_included_index ≡ index)
        × (rf'.persister.snapshot ≡ gob.encode_header index term ++ kvs)
        × (last_log_index rf' ≡ last_log_index rf)
        × ((j : ℕ) → index ≤ j → entry_at rf' j ≡ entry_at rf j)
  unfolding entry_at last_log_index
  take_snapshot_keeps_tail index term kvs rf rf' h lt inside =
      let c = take_snapshot-Compacted index term kvs rf rf' h lt in
      (
        c.base,
        c.disk,
        ground (arith, c, length-drop (index - rf.last_included_index) rf.log),
        λ j le.
            ground (arith, c, get_elem?-drop (index - rf.last_included_index) rf.log (j - index)),
      )

  -- InstallSnapshot below the term of the peer, or of a snapshot no newer than its own, changes
  -- nothing.
  install_snapshot_ignores :
      (args : InstallSnapshotArgs) (rf : Raft C)
      → (args.term < rf.current_term) ⊎ (args.last_included_index ≤ rf.last_included_index)
      → install_snapshot gob args rf ≡ some (rf, record { term = rf.current_term })
  unfolding install_snapshot
  install_snapshot_ignores args rf h = ground arith

  -- The log holds what it held from `index` on if it reached that far, and else ends at `index`.
  abbrev pub Kept : ℕ → Raft C → Raft C → Type 0
  Kept index rf rf' =
      ((index ≤ last_log_index rf) × ((j : ℕ) → index ≤ j → entry_at rf' j ≡ entry_at rf j))
      ⊎ ((last_log_index rf < index) × (last_log_index rf' ≡ index))

  -- A newer snapshot is installed: it is saved, it is sent to the service, and the log begins at its
  -- index, keeps each entry from there on if the log reached that far, and is empty otherwise. The
  -- indexes of the committed and of the applied entries do not fall, and cover the snapshot.
  pub install_snapshot_installs :
      (args : InstallSnapshotArgs) (rf rf' : Raft C) (reply : InstallSnapshotReply)
      → install_snapshot gob args rf ≡ some (rf', reply)
      → rf.current_term ≤ args.term
      → rf.last_included_index < args.last_included_index
      → (rf'.last_included_index ≡ args.last_included_index)
        × (rf'.persister.snapshot ≡ args.snapshot_bytes)
        × (rf'.apply_ch ≡ rf.apply_ch ++ ApplyMsg.snapshot args.snapshot_bytes ∷ [])
        × (rf'.commit_index ≡ max args.last_included_index rf.commit_index)
        × (rf'.last_applied ≡ max args.last_included_index rf.last_applied)
        × Kept args.last_included_index rf rf'
  unfolding install_snapshot entry_at last_log_index
  install_snapshot_installs args rf rf' reply h le lt = (
    ground arith,
    ground arith,
    ground arith,
    ground arith,
    ground arith,
    elim (dec_lt (last_log_index rf) args.last_included_index) [
      | no reached ↦ inl (
        ground arith,
        λ j from. ground (
          arith,
          get_elem?-drop (args.last_included_index - rf.last_included_index) rf.log
              (j - args.last_included_index),
        ),
      )
      | yes short ↦ inr (ground arith, ground arith)
    ],
  )

  -- InstallSnapshot never panics on a log with its placeholder if the snapshot has a term.
  install_snapshot_total :
      (args : InstallSnapshotArgs) (rf : Raft C) (t : ℕ)
      → 0 < length rf.log
      → args.last_included_term ≡ some t
      → install_snapshot gob args rf ≢ none
  unfolding install_snapshot
  install_snapshot_total args rf t h e = ground arith
