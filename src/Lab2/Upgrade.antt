-- ===== src/Lab2/Upgrade.antt =====
-- The peer of Lab2_Raft/Part2C/raft.go beside that of Lab3_KV_Raft/PartB/raft/raft.go, on logs without a
-- snapshot.
pub mod Disk
pub mod Election
pub mod Append
pub mod Accept
pub mod Handler
pub mod Replicate
use mit.Prelude.{
  ℕ, suc, zero, ◌+◌, ◌-◌, ◌≡◌, refl, ap, ◌<◌, ◌≤◌, Option, none, some, List, [], ◌∷◌, arith, length,
  get_elem?, map, ◌>>=◌, ◌++◌, take, drop,
}
use mit.Raft.Types.{LogEntry, Raft}
use mit.Raft.Local
use mit.Lab2.Peer

module _ {C : Type 0} where
  abbrev pub forget : LogEntry C → Peer.LogEntry C
  forget e = record { command = e.command; term = e.term }

  -- The same but for the disk, the indexes in the entries, the messages and the signals; the later stage
  -- may have committed more.
  pub record Alike (old : Peer.Raft C) (rf : Raft C) : Type 0 where
    pub base : rf.last_included_index ≡ 0
    pub log : old.log ≡ map forget rf.log
    pub peers : old.peers ≡ rf.peers
    pub me : old.me ≡ rf.me
    pub state : old.state ≡ rf.state
    pub leader_id : old.leader_id ≡ rf.leader_id
    pub election_timeout : old.election_timeout ≡ rf.election_timeout
    pub heartbeat_period : old.heartbeat_period ≡ rf.heartbeat_period
    pub latest_issue_time : old.latest_issue_time ≡ rf.latest_issue_time
    pub latest_heard_time : old.latest_heard_time ≡ rf.latest_heard_time
    pub current_term : old.current_term ≡ rf.current_term
    pub vote_for : old.vote_for ≡ rf.vote_for
    pub commit_index : old.commit_index ≤ rf.commit_index
    pub last_applied : old.last_applied ≡ rf.last_applied
    pub next_index : old.next_index ≡ rf.next_index
    pub match_index : old.match_index ≡ rf.match_index

  pub length-map : (l : List (LogEntry C)) → length (map forget l) ≡ length l
  length-map [] = refl
  length-map (e ∷ l) = ap suc (length-map l)

  -- The entry at a place, where there is one.
  pub get_elem?-map :
      (l : List (LogEntry C)) (k : ℕ)
      → get_elem? (map forget l) k ≡ (get_elem? l k >>= λ e. some (forget e))
  get_elem?-map [] k = refl
  get_elem?-map (e ∷ l) zero = refl
  get_elem?-map (e ∷ l) (suc k) = get_elem?-map l k

  pub Alike-length :
      (old : Peer.Raft C) (rf : Raft C) → Alike old rf → length old.log ≡ length rf.log
  Alike-length old rf a = rw a.log (length-map rf.log)

  pub Alike-term_at :
      (old : Peer.Raft C) (rf : Raft C) (k : ℕ)
      → Alike old rf
      → Peer.term_at old k ≡ Local.term_at rf k
  unfolding Peer.term_at Local.term_at Local.entry_at Local.sub_snapshot_index
  Alike-term_at old rf k a = ground (arith, a.log, a.base, get_elem?-map rf.log k)

  pub map-append : (l m : List (LogEntry C)) → map forget (l ++ m) ≡ map forget l ++ map forget m
  map-append [] m = refl
  map-append (e ∷ l) m = ap (λ r. forget e ∷ r) (map-append l m)

  pub map-take : (n : ℕ) (l : List (LogEntry C)) → map forget (take n l) ≡ take n (map forget l)
  map-take zero l = refl
  map-take (suc n) [] = refl
  map-take (suc n) (e ∷ l) = ap (λ r. forget e ∷ r) (map-take n l)

  pub map-drop : (n : ℕ) (l : List (LogEntry C)) → map forget (drop n l) ≡ drop n (map forget l)
  map-drop zero l = refl
  map-drop (suc n) [] = refl
  map-drop (suc n) (e ∷ l) = map-drop n l
