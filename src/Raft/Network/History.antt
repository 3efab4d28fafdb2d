-- ===== src/Raft/Network/History.antt =====
-- The logs that leaders have had: every log is the beginning of one of them, and so is what a request
-- carries.
use mit.Prelude.{
  ℕ, ◌+◌, ◌*◌, ◌≡◌, ◌≢◌, ◌≤◌, ◌<◌, ◌⊎◌, inr, some, List, arith, All, length, get_elem?, refl,
}
use mit.Raft.Types.{LogEntry, candidate, leader, Raft, AppendEntriesArgs}
use mit.Raft.Gob.{Gob}
use mit.Raft.Cluster.{Ballot, Has, update, count, Cluster}
use mit.Raft.Cluster.Tally.{common_voter}
use mit.Raft.Cluster.Invariant.{Inv}
use mit.Raft.Cluster.Updates.{update-all}
use mit.Raft.Network.{Network}
use mit.Raft.Network.Prefix.{IsPrefix, Matching}
use mit.Raft.Network.Life.{Life}

module _ {C : Type 0} where
  -- A peer whose log is the beginning of one in the history, and of all the entries of its term, if it
  -- leads.
  pub record Known (rf : Raft C) (history : List (List (LogEntry C))) : Type 0 where
    pub base : rf.last_included_index ≡ 0
    pub filled : 0 < length rf.log
    pub held : (h : List (LogEntry C)) × Has h history × IsPrefix rf.log h
    pub owned :
        rf.state ≡ leader
        → (h : List (LogEntry C)) → Has h history
        → (k : ℕ) (e : LogEntry C) → get_elem? h k ≡ some e
        → e.term ≡ rf.current_term
        → k < length rf.log

  -- A request with entries of the log `h`.
  pub record Sent (args : AppendEntriesArgs C) (h : List (LogEntry C)) : Type 0 where
    pub common : LogEntry C
    pub at_prev : get_elem? h args.prev_log_index ≡ some common
    pub term : common.term ≡ args.prev_log_term
    pub entries :
        (k : ℕ) (e : LogEntry C)
        → get_elem? args.entries k ≡ some e
        → get_elem? h (args.prev_log_index + 1 + k) ≡ some e

  -- A peer that is no longer a candidate of term `t`.
  abbrev pub IsPast : Raft C → ℕ → Type 0
  IsPast rf t = (t < rf.current_term) ⊎ ((rf.current_term ≡ t) × (rf.state ≢ candidate))

  -- Peer `winner` has won the election of term `t`.
  pub record Won (n : ℕ) (s : Cluster C) (winner t : ℕ) : Type 0 where
    pub voters : List ℕ
    pub cast :
        (v : ℕ)
        → 0 < count v voters
        → Has (record { voter = v; candidate = winner; term = t }) s.ballots
    pub distinct : (v : ℕ) → count v voters ≤ 1
    pub below : All (λ v. v < n) voters
    pub majority : n < 2 * length voters
    pub past : IsPast (s.peer winner) t

  pub record Logs (n : ℕ) (s : Network C) (history : List (List (LogEntry C))) : Type 0 where
    pub known : (i : ℕ) → Known (s.cluster.peer i) history
    pub matching : (h h' : List (LogEntry C)) → Has h history → Has h' history → Matching h h'
    pub sent :
        (args : AppendEntriesArgs C)
        → Has args s.pool
        → (h : List (LogEntry C)) × Has h history × Sent args h
    pub born :
        (h : List (LogEntry C))
        → Has h history
        → (k : ℕ) (e : LogEntry C) → get_elem? h k ≡ some e
        → (k ≡ 0) ⊎ ((c : ℕ) × Won n s.cluster c e.term)

module _ {C : Type 0} (gob : Gob C) (n : ℕ) where
  -- A leader has won the election of its term.
  pub leader-Won :
      (s : Cluster C) (i : ℕ)
      → Inv gob n s
      → (s.peer i).state ≡ leader
      → Won n s i (s.peer i).current_term
  leader-Won s i inv l =
      let c = inv.counted i in
      record {
        voters = s.tally i;
        cast = λ v p. c.cast v (λ q. cc) p;
        distinct = c.distinct;
        below = c.below;
        majority = c.won l;
        past = inr (refl, λ q. cc);
      }

  -- The winner of a term that has a leader is the leader.
  pub winner_leads :
      (s : Cluster C) (i j : ℕ)
      → Inv gob n s
      → (s.peer i).state ≡ leader
      → Won n s j (s.peer i).current_term
      → j ≡ i
  winner_leads s i j inv l w =
      let c = inv.counted i in
      let (v, vw, vi) =
        common_voter n w.voters (s.tally i) w.below c.below w.distinct c.distinct w.majority
          (c.won l) in
      inv.votes.once _ _ (w.cast v vw) (c.cast v (λ q. cc) vi) refl refl

  Life-IsPast : (rf rf' : Raft C) (t : ℕ) → Life gob n rf rf' → IsPast rf t → IsPast rf' t
  Life-IsPast rf rf' t l p = ground (arith, l.term, l.role)

  -- Votes stay, and so does a peer that is past its candidacy.
  pub more-Won :
      (s u : Cluster C) (i : ℕ) (rf : Raft C) (winner t : ℕ)
      → u.peer ≡ update s.peer i rf
      → Life gob n (s.peer i) rf
      → ((b : Ballot) → Has b s.ballots → Has b u.ballots)
      → Won n s winner t
      → Won n u winner t
  more-Won s u i rf winner t p l more w = record {
    voters = w.voters;
    cast = λ v q. more _ (w.cast v q);
    distinct = w.distinct;
    below = w.below;
    majority = w.majority;
    past = rw p (
        update-all s.peer s.peer i (λ j r r'. IsPast r' t → IsPast r t) rf
          (Life-IsPast (s.peer i) rf t l) (λ j q. q) winner w.past);
  }
