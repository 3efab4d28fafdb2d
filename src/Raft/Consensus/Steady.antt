-- ===== src/Raft/Consensus/Steady.antt =====
-- The turns that write no log and win no election.
pub mod Votes
use mathlib.Core.Path.{subst}
use mit.Prelude.{
  ℕ, ◌+◌, ◌-◌, ◌≡◌, ◌≢◌, ◌≤◌, ◌<◌, ◌⊎◌, inl, inr, some, List, arith, length, get_elem?,
  get_elem?_lt, refl, sym, ap, ◌∙◌, ◌∷◌, true,
}
use mit.Raft.Types.{
  Role, LogEntry, Raft, candidate, leader, RequestVoteArgs, RequestVoteReply, Tick,
}
use mit.Raft.Gob.{Gob}
use mit.Raft.Local.{term_at, entry_at, sub_snapshot_index, last_log_index}
use mit.Raft.Vote.{request_vote, vote_args}
use mit.Raft.Vote.Rules.{Deserves, vote_granted_iff}
use mit.Raft.Cluster.{Ballot, Has, update}
use mit.Raft.Cluster.Updates.{update-all, update_self}
use mit.Raft.Network.Prefix.{IsPrefix}
use mit.Raft.Network.Life.{Life}
use mit.Raft.Consensus.{Ack}
use mit.Raft.Consensus.Reigns.{Reign, Sound-more, Acked, Acked-more, Acked-limit, Support, Recent}
use mit.Raft.Consensus.Quorum.{Asked, Backed, Called, Describes, Quorate}
use mit.Raft.Consensus.Growth.{Moved, moved-Asked, grown}

module _ {C : Type 0} (gob : Gob C) (n : ℕ) where
  leads_not_candidate : {r : Role} → r ≡ leader → r ≡ candidate → ⊥
  leads_not_candidate l c = cc

  pub still-Moved :
      (rs rs' : List (Reign C)) (rf rf' : Raft C)
      → ((r : Reign C) → Has r rs → Has r rs')
      → Life gob n rf rf'
      → rf'.log ≡ rf.log
      → Moved rs rs' rf rf'
  still-Moved rs rs' rf rf' more life same = record {
    term = life.term;
    role = λ c. ground (arith, life.role, same);
    keeps = λ a le k. rw same (
        Acked-more rs rs' a rf.log (rf.current_term + 1) (rf'.current_term + 1) more
          (omega (arith, life.term)) k);
  }

  module _ (peer : ℕ → Raft C) (ballots : List Ballot) (calls : List RequestVoteArgs)
      (rs : List (Reign C)) (acks : List Ack) (q : Quorate n peer ballots calls rs acks)
      (cast : (b : Ballot) → Has b ballots → b.term ≤ (peer b.voter).current_term) where
    pub steady :
        (i : ℕ) (rf' : Raft C) (ballots' : List Ballot) (calls' : List RequestVoteArgs)
        (acks' : List Ack)
        → Life gob n (peer i) rf'
        → rf'.log ≡ (peer i).log
        → (rf'.state ≡ leader → (peer i).state ≡ leader)
        → ((b : Ballot) → Has b ballots → Has b ballots')
        → ((b : Ballot)
            → Has b ballots'
            → Has b ballots
              ⊎ (((r : Reign C) → Has r rs → r.term ≢ b.term)
                  → (g : List (LogEntry C)) × Support rs acks' b.voter b.term g
                    × Asked (update peer i rf' b.candidate) b.term g))
        → ((args : RequestVoteArgs)
            → Has args calls'
            → Has args calls ⊎ Called rs (update peer i rf') args)
        → ((a : Ack)
            → Has a acks'
            → Has a acks
              ⊎ (((peer a.voter).current_term ≤ a.term)
                  × (a.term ≤ (update peer i rf' a.voter).current_term)
                  × Acked rs a
                      (update peer i rf' a.voter).log
                      ((update peer i rf' a.voter).current_term + 1)))
        → Quorate n (update peer i rf') ballots' calls' rs acks'
    steady i rf' ballots' calls' acks' life same lost stay votes called acked =
        grown n peer ballots calls rs acks q cast i rf' rs acks' ballots' (λ r h. h) stay
          (λ a h. elim (acked a h) [ inl old ↦ inl old | inr (lo, _, _) ↦ inr lo ])
          (still-Moved rs rs (peer i) rf' (λ r h. h) life same) calls'
          (rw same (
            Sound-more rs rs (peer i).current_term rf'.current_term (peer i).log (λ r h. h)
              life.term (q.logs i)))
          (λ c k e at.
            let before : get_elem? (peer i).log k ≡ some e = rw (sym same) at in
            elim life.role [
              | inl f ↦ cc
              | inr (inl (c', lt)) ↦ omega (arith, (q.logs i).bounded k e before, lt)
              | inr (inr (inl (r, tm))) ↦ omega (arith, q.fresh i (sym r ∙ c) k e before, tm)
              | inr (inr (inr (l, was, tm))) ↦ cc
            ])
          (λ l. elim life.role [
            | inl f ↦ cc
            | inr (inl (c', lt)) ↦ cc
            | inr (inr (inl (r, tm))) ↦ rw (tm, same) (q.leads i (sym r ∙ l))
            | inr (inr (inr (l', was, tm))) ↦ absurd (leads_not_candidate (lost l) was)
          ])
          (update-all peer peer i
            (λ j r' r₀.
              (r : Reign C)
              → r'.state ≡ leader
              → Has r rs
              → r.term ≡ r'.current_term
              → IsPrefix r.log r'.log)
            rf'
            (λ r l h e. elim life.role [
              | inl f ↦ cc
              | inr (inl (c', lt)) ↦ cc
              | inr (inr (inl (was, tm))) ↦ rw same (q.owns i r (sym was ∙ l) h (e ∙ tm))
              | inr (inr (inr (l', was, tm))) ↦ absurd (leads_not_candidate (lost l) was)
            ])
            (λ j r. q.owns j r))
          q.chain (λ r h. inl h) votes called
          (λ a h. elim (acked a h) [ inl old ↦ inl old | inr (_, hi, k) ↦ inr (hi, k) ])

    -- No message is new.
    pub quietly :
        (i : ℕ) (rf' : Raft C)
        → Life gob n (peer i) rf'
        → rf'.log ≡ (peer i).log
        → (rf'.state ≡ leader → (peer i).state ≡ leader)
        → Quorate n (update peer i rf') ballots calls rs acks
    quietly i rf' life same lost =
        steady i rf' ballots calls acks life same lost (λ b h. h) (λ b h. inl h) (λ args h. inl h)
          (λ a h. inl h)
