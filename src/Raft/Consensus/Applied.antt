-- ===== src/Raft/Consensus/Applied.antt =====
-- applyEntries on the peers of a system.
use mathlib.Core.Path.{subst}
use mit.Prelude.{
  ℕ, ◌+◌, ◌-◌, ◌≡◌, ◌<◌, inl, inr, some, arith, length, get_elem?_le, get_elem?_lt, take, drop,
  ◌++◌,
}
use mit.Raft.Gob.{Gob}
use mit.Raft.Service.{apply_entries}
use mit.Raft.Service.Delivery.{messages, apply_entries_delivers}
use mit.Raft.Network.Matching.{fresh-Safe}
use mit.Raft.Consensus.{System, Course}
use mit.Raft.Consensus.Runs.{Held}
use mit.Raft.Consensus.Agreement.{uncompacted}
use mit.Raft.Consensus.Reachable.{IsInitial, Course-Held, initial-Held}

module _ {C : Type 0} (gob : Gob C) (n : ℕ) where
  -- Every index that is committed is one of the log.
  commit_within_log :
      (s : System C) (i : ℕ)
      → Held gob n s
      → (s.network.cluster.peer i).commit_index < length (s.network.cluster.peer i).log
  commit_within_log s i held = elim (held.commits i) [
    | inl z ↦ omega (arith, z, (held.quorate.logs i).filled)
    | inr c ↦
        let k = (s.network.cluster.peer i).commit_index in
        let (a, at) =
          get_elem?_lt c.by.reign.log k
            (ground (arith, c.below, get_elem?_le c.by.reign.log c.by.index, c.by.at)) in
        ground (arith, c.same k a (omega arith) at, get_elem?_le (s.network.cluster.peer i).log k)
  ]

  -- Committed entries are applied. In any run of a system as in state machine safety, a round of
  -- applyEntries of a peer whose CommitIndex is above its LastApplied does not panic: it sends the
  -- entries of its log behind LastApplied up to CommitIndex, each once and in order, and ends with
  -- LastApplied at CommitIndex.
  pub committed_applied :
      (s u : System C) (i : ℕ)
      → IsInitial gob n s
      → Course gob n s u
      → (u.network.cluster.peer i).last_applied < (u.network.cluster.peer i).commit_index
      → apply_entries (u.network.cluster.peer i)
        ≡ some (record (u.network.cluster.peer i) {
          last_applied = (u.network.cluster.peer i).commit_index;
          apply_ch =
              (u.network.cluster.peer i).apply_ch
              ++ messages
                  (take
                    ((u.network.cluster.peer i).commit_index
                      - (u.network.cluster.peer i).last_applied)
                    (drop
                      ((u.network.cluster.peer i).last_applied + 1)
                      (u.network.cluster.peer i).log))
                  ((u.network.cluster.peer i).last_applied + 1);
        })
  committed_applied s u i f r new =
      let rf = u.network.cluster.peer i in
      let base = uncompacted gob n s u i f r in
      let held =
        (Course-Held gob n r
          (fresh-Safe gob n s.network f.fresh f.pool, initial-Held gob n s f)).1 in
      let within = commit_within_log u i held in
      let offset : rf.last_applied + 1 - rf.last_included_index ≡ rf.last_applied + 1 =
        omega (arith, base) in
      subst
        (λ k.
          apply_entries rf
          ≡ some (record rf {
            last_applied = rf.commit_index;
            apply_ch =
                rf.apply_ch
                ++ messages (take (rf.commit_index - rf.last_applied) (drop k rf.log))
                    (rf.last_applied + 1);
          }))
        offset (apply_entries_delivers rf (omega (arith, base)) new (omega (arith, within)))
