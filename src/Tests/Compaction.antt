-- ===== src/Tests/Compaction.antt =====
-- The theorems on snapshots at a concrete peer.
use mit.Prelude.{ℕ, ◌≡◌, refl, ◌≤◌, none, some, [], ◌∷◌, ◌++◌, arith, max}
use mit.Raft.Types.{ApplyMsg, Raft, InstallSnapshotArgs, InstallSnapshotReply}
use mit.Raft.Local.{entry_at, last_log_index}
use mit.Raft.Snapshot.{take_snapshot, install_snapshot}
use mit.Raft.Snapshot.Compaction.{Kept, take_snapshot_keeps_tail, install_snapshot_installs}
use mit.Tests.Codec.{nat_gob}
use mit.Tests.Peers.{entry, peer, snapshot_request}

-- The peer with a snapshot of its first entry.
abbrev compacted : Raft ℕ
compacted = record peer {
  persister = record {
    raftstate = nat_gob.encode_state 2 none (entry 7 1 1 ∷ entry 8 2 2 ∷ []);
    snapshot = 1 ∷ 1 ∷ 5 ∷ [];
  };
  log = entry 7 1 1 ∷ entry 8 2 2 ∷ [];
  last_included_index = 1;
  last_included_term = some 1;
}

take_snapshot_keeps_tail_example :
    (compacted.last_included_index ≡ 1)
    × (compacted.persister.snapshot ≡ nat_gob.encode_header 1 1 ++ 5 ∷ [])
    × (last_log_index compacted ≡ last_log_index peer)
    × ((j : ℕ) → 1 ≤ j → entry_at compacted j ≡ entry_at peer j)
unfolding take_snapshot
take_snapshot_keeps_tail_example =
    take_snapshot_keeps_tail nat_gob 1 1 (5 ∷ []) peer compacted refl (omega arith) (omega arith)

abbrev old_request : InstallSnapshotArgs
old_request = record snapshot_request { term = 1 }

-- The peer with the snapshot of both entries that leader 1 of term 3 sent.
abbrev installed : Raft ℕ
installed = record peer {
  persister = record {
    raftstate = nat_gob.encode_state 3 (some 1) (entry 8 2 2 ∷ []);
    snapshot = 2 ∷ 2 ∷ [];
  };
  apply_ch = ApplyMsg.snapshot (2 ∷ 2 ∷ []) ∷ [];
  current_term = 3;
  vote_for = some 1;
  log = entry 8 2 2 ∷ [];
  commit_index = 2;
  last_applied = 2;
  last_included_index = 2;
  last_included_term = some 2;
}

abbrev old_term : InstallSnapshotReply
old_term = record { term = 2 }

install_snapshot_installs_example :
    (installed.last_included_index ≡ 2)
    × (installed.persister.snapshot ≡ 2 ∷ 2 ∷ [])
    × (installed.apply_ch ≡ peer.apply_ch ++ ApplyMsg.snapshot (2 ∷ 2 ∷ []) ∷ [])
    × (installed.commit_index ≡ max 2 peer.commit_index)
    × (installed.last_applied ≡ max 2 peer.last_applied)
    × Kept nat_gob 2 peer installed
unfolding install_snapshot
install_snapshot_installs_example =
    install_snapshot_installs nat_gob snapshot_request peer installed old_term refl (omega arith)
      (omega arith)
