-- ===== src/Raft/Consensus/Leading.antt =====
-- The turns that make a new log of a leader, and the one that wins an election.
pub mod Extending
use mathlib.Core.Path.{subst}
use mit.Prelude.{
  ℕ, ◌+◌, ◌≡◌, ◌≢◌, ◌≤◌, ◌<◌, ◌⊎◌, inl, inr, some, List, arith, length, get_elem?, get_elem?_lt,
  get_elem?_le, refl, sym, ap, ◌∙◌, [], ◌∷◌, ◌++◌, length-append, get_elem?-append_left,
  get_elem?-append_right,
}
use native.Mathlib.Decide.{dec_lt}
use mit.Raft.Types.{LogEntry, Raft, candidate, leader, RequestVoteArgs}
use mit.Raft.Gob.{Gob}
use mit.Raft.Cluster.{Ballot, Has, update, count, Cluster}
use mit.Raft.Cluster.Updates.{update-all, update_self}
use mit.Raft.Cluster.Tally.{common_voter}
use mit.Raft.Network.Prefix.{IsPrefix}
use mit.Raft.Network.Life.{Life}
use mit.Raft.Cluster.Updates.{update-all_but}
use mit.Raft.Network.History.{Won, IsPast}
use mit.Raft.Consensus.{Ack}
use mit.Raft.Consensus.Reigns.{
  Reign, Sound, Sound-more, Acked-more, Acked-prefix, Support-more, Comparable,
}
use mit.Raft.Consensus.Quorum.{Mandate, Quorate}
use mit.Raft.Consensus.Growth.{Moved, grown}
use mit.Raft.Consensus.Steady.{still-Moved}

module _ {C : Type 0} (gob : Gob C) (n : ℕ) where
  module _ (peer : ℕ → Raft C) (ballots : List Ballot) (calls : List RequestVoteArgs)
      (rs : List (Reign C)) (acks : List Ack) (q : Quorate n peer ballots calls rs acks)
      (cast : (b : Ballot) → Has b ballots → b.term ≤ (peer b.voter).current_term)
      (once : (b b' : Ballot)
        → Has b ballots
        → Has b' ballots
        → b.voter ≡ b'.voter
        → b.term ≡ b'.term
        → b.candidate ≡ b'.candidate) where
    -- Leaders of one term are one peer.
    one_owner : (r r' : Reign C) → Has r rs → Has r' rs → r.term ≡ r'.term → r.owner ≡ r'.owner
    one_owner r r' h h' e =
        let m = q.mandates r h in
        let m' = q.mandates r' h' in
        let (v, vm, vm') =
          common_voter n m.voters m'.voters m.below m'.below m.distinct m'.distinct m.majority
            m'.majority in
        once _ _ (m.cast v vm) (m'.cast v vm') refl e

    module _ (i : ℕ) (rf' : Raft C) where
      not_past :
          (rf : Raft C) (t : ℕ) → IsPast rf t → rf.state ≡ candidate → rf.current_term ≡ t → ⊥
      not_past rf t p c e = ground (arith, p)

      abbrev enthroned : List (LogEntry C) → List (Reign C)
      enthroned log = record { owner = i; term = (peer i).current_term; log = log } ∷ rs

      -- A new log that goes on with all of its leader's.
      crowned-chain :
          (log : List (LogEntry C))
          → ((r : Reign C) → Has r rs → r.term ≡ (peer i).current_term → IsPrefix r.log log)
          → (r r' : Reign C) → Has r (enthroned log)
          → Has r' (enthroned log)
          → r.term ≡ r'.term
          → Comparable r.log r'.log
      crowned-chain log above r r' h h' e = elim h [
        | inl a ↦ elim h' [
          | inl b ↦ subst (λ x. Comparable r.log x.log) (sym a ∙ b) (inl (λ k x at. at))
          | inr old ↦ inr (
              subst (λ x. IsPrefix r'.log x.log) a
                (above r' old (sym e ∙ sym (ap (λ x. x.term) a))))
        ]
        | inr old ↦ elim h' [
          | inl b ↦
              inl (subst (λ x. IsPrefix r.log x.log) b (above r old (e ∙ sym (ap (λ x. x.term) b))))
          | inr old' ↦ q.chain r r' old old' e
        ]
      ]

      -- A peer that leads in term `t` with a log that goes on with all that has led in it.
      crown :
          (log : List (LogEntry C))
          → Moved rs (enthroned log) (peer i) rf'
          → rf'.state ≡ leader
          → rf'.current_term ≡ (peer i).current_term
          → rf'.log ≡ log
          → Sound (enthroned log) (peer i).current_term log
          → 0 < (peer i).current_term
          → Mandate n ballots
              (enthroned log)
              acks
              (record { owner = i; term = (peer i).current_term; log = log })
          → ((r : Reign C) → Has r rs → r.term ≡ (peer i).current_term → IsPrefix r.log log)
          → ((j : ℕ)
              → i ≢ j
              → (peer j).state ≡ leader
              → (peer i).current_term ≢ (peer j).current_term)
          → Quorate n (update peer i rf') ballots calls (enthroned log) acks
      crown log moved l tm same sound pos mandate above alone =
          grown n peer ballots calls rs acks q cast i rf' (enthroned log) acks ballots
            (λ r h. inr h) (λ b h. h) (λ a h. inl h) moved calls (rw (tm, same) sound) (λ c. cc)
            (λ _. inl (rw (tm, same) refl))
            (update-all_but peer i
              (λ j r'.
                (r : Reign C)
                → r'.state ≡ leader
                → Has r (enthroned log)
                → r.term ≡ r'.current_term
                → IsPrefix r.log r'.log)
              rf'
              (λ r _ h tr. elim h [
                | inl a ↦ rw same (subst (λ z. IsPrefix z.log log) a (λ k b at. at))
                | inr old ↦ rw same (above r old (tr ∙ tm))
              ])
              (λ j other r lj h tr. elim h [
                | inl a ↦ absurd (alone j other lj (ap (λ z. z.term) a ∙ tr))
                | inr old ↦ q.owns j r lj old tr
              ]))
            (crowned-chain log above)
            (λ r h. elim h [
              | inl a ↦ inr (
                  subst
                    (λ r.
                      Sound (enthroned log) r.term r.log
                      × (0 < r.term)
                      × IsPast (update peer i rf' r.owner) r.term
                      × Mandate n ballots (enthroned log) acks r)
                    a (sound, pos, rw (update_self peer i rf') (inr (tm, λ c. cc)), mandate))
              | inr old ↦ inl old
            ])
            (λ b h. inl h) (λ args h. inl h) (λ a h. inl h)

      -- A candidate that wins is the first leader of its term.
      pub winning :
          (s : Cluster C) (won : Won n s i (peer i).current_term)
          → ((v : ℕ)
              → 0 < count v won.voters
              → Has (record { voter = v; candidate = i; term = (peer i).current_term }) ballots)
          → (peer i).state ≡ candidate
          → rf'.state ≡ leader
          → rf'.current_term ≡ (peer i).current_term
          → rf'.log ≡ (peer i).log
          → Life gob n (peer i) rf'
          → Quorate n (update peer i rf') ballots calls (enthroned (peer i).log) acks
      winning s won votes was l tm same life =
          let t = (peer i).current_term in
          let rs' = enthroned (peer i).log in
          let more : (r : Reign C) → Has r rs → Has r rs' = λ r h. inr h in
          let none_yet : (r : Reign C) → Has r rs → r.term ≢ t = λ r h e.
            let m = q.mandates r h in
            let (v, vm, vw) =
              common_voter n m.voters won.voters m.below won.below m.distinct won.distinct
                m.majority won.majority in
            let mine : r.owner ≡ i = once _ _ (m.cast v vm) (votes v vw) refl e in
            not_past (peer i) t
              (subst (λ j. IsPast (peer j) t) mine (subst (IsPast (peer r.owner)) e (q.past r h)))
              was refl in
          let (first, at) = get_elem?_lt (peer i).log 0 (q.logs i).filled in
          crown (peer i).log (still-Moved gob n rs rs' (peer i) rf' more life same) l tm same
            (Sound-more rs rs' t t (peer i).log more (omega arith) (q.logs i))
            (omega (arith, q.fresh i was 0 first at))
            (record {
              voters = won.voters;
              distinct = won.distinct;
              below = won.below;
              majority = won.majority;
              cast = votes;
              supported = λ v vh.
                  let (g, s, a) = q.votes _ (votes v vh) none_yet in
                  (
                    g,
                    Support-more rs rs' acks acks v t g more (λ a ha. inl ha) s,
                    λ k x at'. rw (a.1 refl was) at',
                  );
            })
            (λ r h e. absurd (none_yet r h e)) (λ j other lj e. none_yet _ (q.leads j lj) (sym e))
