-- ===== src/Raft/Consensus/Agreement.antt =====
-- What a system never loses: committed entries.
use mit.Prelude.{
  ℕ, ◌≡◌, ◌≤◌, ◌<◌, inl, inr, some, arith, get_elem?, get_elem?_le, get_elem?_lt, sym, ap, ◌∙◌,
}
use native.Mathlib.Decide.{dec_lt}
use mit.Raft.Types.{LogEntry, leader}
use mit.Raft.Gob.{Gob}
use mit.Raft.Local.{entry_at, sub_snapshot_index}
use mit.Raft.Network.Matching.{fresh-Safe}
use mit.Raft.Consensus.{System, Course}
use mit.Raft.Consensus.Reigns.Common.{Comparable-at}
use mit.Raft.Consensus.Quorum.{Certified, complete}
use mit.Raft.Consensus.Runs.{Held}
use mit.Raft.Consensus.Reachable.{IsInitial, Course-Held, initial-Held}

module _ {C : Type 0} (gob : Gob C) (n : ℕ) where
  -- What one peer has committed stands in the log of a leader of a term that is no older.
  committed_leads :
      (s : System C) (i j k : ℕ) (e : LogEntry C)
      → Held gob n s
      → (s.network.cluster.peer j).state ≡ leader
      → (s.network.cluster.peer i).current_term ≤ (s.network.cluster.peer j).current_term
      → 0 < k
      → k ≤ (s.network.cluster.peer i).commit_index
      → get_elem? (s.network.cluster.peer i).log k ≡ some e
      → get_elem? (s.network.cluster.peer j).log k ≡ some e
  committed_leads s i j k e held l le pos ck at = elim (held.commits i) [
    | inl z ↦ absurd (omega arith)
    | inr c ↦
        let q = held.quorate in
        let b = c.by in
        let (a, at_b) =
          get_elem?_lt b.reign.log k
            (ground (arith, c.below, get_elem?_le b.reign.log b.index, b.at)) in
        let same : a ≡ e = ground (arith, c.same k a ck at_b, at) in
        elim (dec_lt b.reign.term (s.network.cluster.peer j).current_term) [
          | yes newer ↦
              complete n s.network.cluster.peer s.network.cluster.ballots s.calls held.reigns
                held.acks q b _ (q.leads j l) newer k e (omega (arith, c.below))
                (at_b ∙ ap some same)
          | no now ↦
              q.owns j b.reign l b.inside (omega (arith, c.term, now)) k e (at_b ∙ ap some same)
        ]
  ]

  -- Certified logs agree where both reach.
  certified_agree :
      (s : System C) (held : Held gob n s) (b b' : Certified n held.reigns held.acks) (k : ℕ)
      → b.reign.term ≤ b'.reign.term
      → k ≤ b.index
      → k ≤ b'.index
      → get_elem? b.reign.log k ≡ get_elem? b'.reign.log k
  certified_agree s held b b' k le lk lk' =
      let q = held.quorate in
      let (a, at) =
        get_elem?_lt b.reign.log k (ground (arith, get_elem?_le b.reign.log b.index, b.at)) in
      let (a', at') =
        get_elem?_lt b'.reign.log k (ground (arith, get_elem?_le b'.reign.log b'.index, b'.at)) in
      elim (dec_lt b.reign.term b'.reign.term) [
        | yes newer ↦
            at
            ∙ sym (
                complete n s.network.cluster.peer s.network.cluster.ballots s.calls held.reigns
                  held.acks q b b'.reign b'.inside newer k a lk at)
        | no same ↦
            Comparable-at b.reign.log b'.reign.log k a a'
              (q.chain b.reign b'.reign b.inside b'.inside (omega (arith, le, same))) at at'
      ]

  covered_at :
      (s : System C) (held : Held gob n s) (i k : ℕ)
      → 0 < k
      → k ≤ (s.network.cluster.peer i).commit_index
      → (b : Certified n held.reigns held.acks) × (k ≤ b.index)
        × (get_elem? (s.network.cluster.peer i).log k ≡ get_elem? b.reign.log k)
  covered_at s held i k pos ck = elim (held.commits i) [
    | inl z ↦ absurd (omega arith)
    | inr c ↦
        let (a, at) =
          get_elem?_lt c.by.reign.log k
            (ground (arith, c.below, get_elem?_le c.by.reign.log c.by.index, c.by.at)) in
        (c.by, omega (arith, c.below), c.same k a ck at ∙ sym at)
  ]

  -- No peer of a system has a snapshot.
  pub uncompacted :
      (s u : System C) (i : ℕ)
      → IsInitial gob n s
      → Course gob n s u
      → (u.network.cluster.peer i).last_included_index ≡ 0
  uncompacted s u i f r =
      ((Course-Held gob n r
          (fresh-Safe gob n s.network f.fresh f.pool, initial-Held gob n s f)).0.logs.known
        i).base

  -- Leader completeness. In any run, by the turns of Raft.Consensus, of a system that starts with empty
  -- disks, without snapshots, with any loss, delay, repetition and reordering of messages and any crashes, a leader has every entry
  -- above the placeholder that a peer whose term is not above its own has committed.
  pub leader_completeness :
      (s u : System C) (i j k : ℕ) (e : LogEntry C)
      → IsInitial gob n s
      → Course gob n s u
      → (u.network.cluster.peer j).state ≡ leader
      → (u.network.cluster.peer i).current_term ≤ (u.network.cluster.peer j).current_term
      → 0 < k
      → k ≤ (u.network.cluster.peer i).commit_index
      → entry_at (u.network.cluster.peer i) k ≡ some e
      → entry_at (u.network.cluster.peer j) k ≡ some e
  unfolding entry_at sub_snapshot_index
  leader_completeness s u i j k e f r l le pos ck at =
      let (safe, held) =
        Course-Held gob n r (fresh-Safe gob n s.network f.fresh f.pool, initial-Held gob n s f) in
      ground (
        arith,
        (safe.logs.known i).base,
        (safe.logs.known j).base,
        committed_leads u i j k e held l le pos ck,
      )

  -- State machine safety. In any such run, two peers that have both committed an index above 0 have
  -- the same entry there.
  pub state_machine_safety :
      (s u : System C) (i j k : ℕ)
      → IsInitial gob n s
      → Course gob n s u
      → 0 < k
      → k ≤ (u.network.cluster.peer i).commit_index
      → k ≤ (u.network.cluster.peer j).commit_index
      → entry_at (u.network.cluster.peer i) k ≡ entry_at (u.network.cluster.peer j) k
  unfolding entry_at sub_snapshot_index
  state_machine_safety s u i j k f r pos ci cj =
      let (safe, held) =
        Course-Held gob n r (fresh-Safe gob n s.network f.fresh f.pool, initial-Held gob n s f) in
      let (b, lb, at) = covered_at u held i k pos ci in
      let (b', lb', at') = covered_at u held j k pos cj in
      let same : get_elem? b.reign.log k ≡ get_elem? b'.reign.log k =
        elim (dec_lt b'.reign.term b.reign.term) [
          | yes above ↦ sym (certified_agree u held b' b k (omega arith) lb' lb)
          | no below ↦ certified_agree u held b b' k (omega arith) lb lb'
        ] in
      ground (arith, (safe.logs.known i).base, (safe.logs.known j).base, at ∙ same ∙ sym at')
