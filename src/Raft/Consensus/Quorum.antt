-- ===== src/Raft/Consensus/Quorum.antt =====
-- The invariant of a network: what its peers, votes and requests for votes have to do with the logs that
-- leaders have had and with what was acknowledged. An entry that a majority has acknowledged stands in the logs
-- of all later leaders.
use mit.Prelude.{
  ℕ, zero, suc, ◌+◌, ◌-◌, ◌*◌, ◌≡◌, ◌≢◌, ◌≤◌, ◌<◌, inl, inr, some, List, arith, All, length,
  get_elem?, get_elem?_lt, get_elem?_le, sym, ◌∙◌,
}
use mit.Raft.Types.{LogEntry, Raft, candidate, leader, RequestVoteArgs}
use mit.Raft.Cluster.{Ballot, Has, count}
use mit.Raft.Cluster.Tally.{common_voter}
use mit.Raft.Network.Prefix.{IsPrefix}
use mit.Raft.Network.History.{IsPast}
use mit.Raft.Consensus.{Ack}
use mit.Raft.Consensus.Reigns.{Reign, Upto, Sound, Acked, Support, Comparable}
use mit.Raft.Consensus.Reigns.Common.{Recent-Upto}

module _ {C : Type 0} where
  -- Peer `owner` has been elected in the term of `r` with a log that `r` goes on with.
  pub record Mandate (n : ℕ) (ballots : List Ballot) (rs : List (Reign C)) (acks : List Ack)
      (r : Reign C) : Type 0 where
    pub voters : List ℕ
    pub distinct : (v : ℕ) → count v voters ≤ 1
    pub below : All (λ v. v < n) voters
    pub majority : n < 2 * length voters
    pub cast :
        (v : ℕ)
        → 0 < count v voters
        → Has (record { voter = v; candidate = r.owner; term = r.term }) ballots
    pub supported :
        (v : ℕ)
        → 0 < count v voters
        → (g : List (LogEntry C)) × Support rs acks v r.term g × IsPrefix g r.log

  -- A candidate of term `t` that is one still has the log `g`.
  abbrev pub Asked : Raft C → ℕ → List (LogEntry C) → Type 0
  Asked rf t g = (t ≤ rf.current_term) × (rf.current_term ≡ t → rf.state ≡ candidate → rf.log ≡ g)

  -- What a request for votes says of the log `g`.
  pub record Describes (args : RequestVoteArgs) (g : List (LogEntry C)) : Type 0 where
    pub last : LogEntry C
    pub at : get_elem? g (length g - 1) ≡ some last
    pub term : last.term ≡ args.last_log_term
    pub index : length g - 1 ≡ args.last_log_index

  pub record Called (rs : List (Reign C)) (peer : ℕ → Raft C) (args : RequestVoteArgs)
      : Type 0 where
    pub log : List (LogEntry C)
    pub sound : Sound rs args.term log
    pub older : (k : ℕ) (e : LogEntry C) → get_elem? log k ≡ some e → e.term < args.term
    pub describes : Describes args log
    pub asked : Asked (peer args.candidate_id) args.term log

  -- The voter of `b` had a reason, and its candidate is where it asked.
  abbrev pub Backed : List (Reign C) → List Ack → (ℕ → Raft C) → Ballot → Type 0
  Backed rs acks peer b =
      (g : List (LogEntry C)) × Support rs acks b.voter b.term g × Asked (peer b.candidate) b.term g

  pub record Quorate (n : ℕ) (peer : ℕ → Raft C) (ballots : List Ballot)
      (calls : List RequestVoteArgs) (rs : List (Reign C)) (acks : List Ack) : Type 0 where
    pub logs : (i : ℕ) → Sound rs (peer i).current_term (peer i).log
    pub fresh :
        (i : ℕ)
        → (peer i).state ≡ candidate
        → (k : ℕ) (e : LogEntry C) → get_elem? (peer i).log k ≡ some e
        → e.term < (peer i).current_term
    pub leads :
        (i : ℕ)
        → (peer i).state ≡ leader
        → Has (record { owner = i; term = (peer i).current_term; log = (peer i).log }) rs
    pub owns :
        (i : ℕ) (r : Reign C)
        → (peer i).state ≡ leader
        → Has r rs
        → r.term ≡ (peer i).current_term
        → IsPrefix r.log (peer i).log
    pub chain : (r r' : Reign C) → Has r rs → Has r' rs → r.term ≡ r'.term → Comparable r.log r'.log
    pub sound : (r : Reign C) → Has r rs → Sound rs r.term r.log × (0 < r.term)
    pub past : (r : Reign C) → Has r rs → IsPast (peer r.owner) r.term
    pub mandates : (r : Reign C) → Has r rs → Mandate n ballots rs acks r
    pub votes :
        (b : Ballot)
        → Has b ballots
        → ((r : Reign C) → Has r rs → r.term ≢ b.term)
        → Backed rs acks peer b
    pub called : (args : RequestVoteArgs) → Has args calls → Called rs peer args
    pub acked :
        (a : Ack)
        → Has a acks
        → (a.term ≤ (peer a.voter).current_term)
          × Acked rs a (peer a.voter).log ((peer a.voter).current_term + 1)

  -- A majority has acknowledged the log `reign` up to `index`, where an entry of its term stands.
  pub record Certified (n : ℕ) (rs : List (Reign C)) (acks : List Ack) : Type 0 where
    pub reign : Reign C
    pub inside : Has reign rs
    pub index : ℕ
    pub entry : LogEntry C
    pub at : get_elem? reign.log index ≡ some entry
    pub term : entry.term ≡ reign.term
    pub voters : List ℕ
    pub distinct : (v : ℕ) → count v voters ≤ 1
    pub below : All (λ v. v < n) voters
    pub majority : n < 2 * length voters
    pub acked :
        (v : ℕ)
        → 0 < count v voters
        → (a : Ack) × Has a acks × (a.voter ≡ v) × (a.term ≡ reign.term) × (index ≤ a.index)

  -- Logs of one leader are the same where both are long enough.
  Comparable-Upto :
      (h h' : List (LogEntry C)) (k : ℕ) (x : List (LogEntry C))
      → Comparable h h'
      → k < length h'
      → k < length h
      → Upto k h x
      → Upto k h' x
  Comparable-Upto h h' k x c lt lt' u j e le q =
      let (a, at_h) = get_elem?_lt h j (omega arith) in
      elim c [ inl p ↦ ground (arith, p j a at_h, u j a le at_h, q) | inr p ↦ u j e le (p j e q) ]

  module _ (n : ℕ) (peer : ℕ → Raft C) (ballots : List Ballot) (calls : List RequestVoteArgs)
      (rs : List (Reign C)) (acks : List Ack) (q : Quorate n peer ballots calls rs acks)
      (c : Certified n rs acks) where
    -- Leader completeness, for the terms below `b`.
    complete_below :
        (b : ℕ) (r : Reign C)
        → Has r rs
        → c.reign.term < r.term
        → r.term < b
        → Upto c.index c.reign.log r.log
    complete_below zero r hr later lt = elim lt [ ]
    complete_below (suc b) r hr later lt =
        let m = q.mandates r hr in
        let (v, vm, vc) =
          common_voter n m.voters c.voters m.below c.below m.distinct c.distinct m.majority
            c.majority in
        let (g, s, p) = m.supported v vm in
        let (a, ha, av, at, ai) = c.acked v vc in
        let k = s.keeps a ha av (omega arith) in
        let mid : (r' : Reign C)
            → Has r' rs
            → c.reign.term < r'.term
            → r'.term < r.term
            → Upto c.index c.reign.log r'.log =
          λ r' hr' lo hi. complete_below b r' hr' lo (omega arith) in
        let long : c.index < length c.reign.log =
          ground (arith, get_elem?_le c.reign.log c.index, c.at) in
        let same : Comparable k.root.log c.reign.log =
          q.chain k.root c.reign k.inside c.inside (k.term ∙ at) in
        let root : c.index < length k.root.log = omega (arith, k.long) in
        let other : Comparable c.reign.log k.root.log =
          q.chain c.reign k.root c.inside k.inside (sym (k.term ∙ at)) in
        let mine : Upto c.index c.reign.log s.mine =
          Comparable-Upto k.root.log c.reign.log c.index s.mine same long root (
            k.kept c.index ai (λ r' hr' lo hi.
              Comparable-Upto c.reign.log k.root.log c.index r'.log other root long
                (mid r' hr' (omega (arith, lo, at)) hi))) in
        let theirs : Upto c.index c.reign.log g =
          Recent-Upto rs r.term c.index c.reign.term c.reign.log g s.mine c.entry q.chain
            (λ r' hr'. (q.sound r' hr').0) s.sound s.mine_sound s.recent mid s.older c.at c.term
            (q.sound c.reign c.inside).1 mine in
        λ j e le h. p j e (theirs j e le h)

    -- Leader completeness.
    pub complete : (r : Reign C) → Has r rs → c.reign.term < r.term → Upto c.index c.reign.log r.log
    complete r hr later = complete_below (r.term + 1) r hr later (omega arith)
