-- ===== src/Raft/Consensus/Growth.antt =====
-- A change of one peer that keeps the invariant of a network for all that was there before.
use mathlib.Core.Path.{subst}
use mit.Prelude.{ℕ, ◌+◌, ◌≡◌, ◌≢◌, ◌≤◌, ◌<◌, ◌⊎◌, inl, inr, some, List, arith, get_elem?, ◌∙◌}
use mit.Raft.Types.{LogEntry, Raft, candidate, leader, RequestVoteArgs}
use mit.Raft.Cluster.{Ballot, Has, update}
use mit.Raft.Cluster.Updates.{update-all}
use mit.Raft.Network.Prefix.{IsPrefix}
use mit.Raft.Network.History.{IsPast}
use mit.Raft.Consensus.{Ack}
use mit.Raft.Consensus.Reigns.{
  Reign, Sound, Sound-more, Acked, Acked-more, Support, Support-more, Comparable,
}
use mit.Raft.Consensus.Quorum.{Mandate, Asked, Called, Quorate}

module _ {C : Type 0} where
  -- How a peer changes.
  pub record Moved (rs rs' : List (Reign C)) (rf rf' : Raft C) : Type 0 where
    pub term : rf.current_term ≤ rf'.current_term
    pub role :
        rf'.state ≡ candidate
        → (rf.current_term < rf'.current_term) ⊎ ((rf.state ≡ candidate) × (rf'.log ≡ rf.log))
    pub keeps :
        (a : Ack)
        → a.term ≤ rf.current_term
        → Acked rs a rf.log (rf.current_term + 1)
        → Acked rs' a rf'.log (rf'.current_term + 1)

  pub moved-Asked :
      (peer : ℕ → Raft C) (i : ℕ) (rf' : Raft C) (rs rs' : List (Reign C)) (c t : ℕ)
      (g : List (LogEntry C))
      → Moved rs rs' (peer i) rf'
      → Asked (peer c) t g
      → Asked (update peer i rf' c) t g
  moved-Asked peer i rf' rs rs' c t g m =
      update-all peer peer i (λ k r r'. Asked r' t g → Asked r t g) rf'
        (λ a. (
          omega (arith, a.0, m.term),
          λ e s. elim (m.role s) [
            | inl up ↦ absurd (omega (arith, up, a.0))
            | inr (was, same) ↦ same ∙ a.1 (omega (arith, m.term, a.0)) was
          ],
        ))
        (λ k a. a) c

  module _ (n : ℕ) (peer : ℕ → Raft C) (ballots : List Ballot) (calls : List RequestVoteArgs)
      (rs : List (Reign C)) (acks : List Ack) (q : Quorate n peer ballots calls rs acks)
      (cast : (b : Ballot) → Has b ballots → b.term ≤ (peer b.voter).current_term) where
    module _ (i : ℕ) (rf' : Raft C) (rs' : List (Reign C)) (acks' : List Ack)
        (ballots' : List Ballot) (more : (r : Reign C) → Has r rs → Has r rs')
        (stay : (b : Ballot) → Has b ballots → Has b ballots')
        (new : (a : Ack) → Has a acks' → Has a acks ⊎ ((peer a.voter).current_term ≤ a.term))
        (m : Moved rs rs' (peer i) rf') where
      abbrev peer' : ℕ → Raft C
      peer' = update peer i rf'

      moved_at :
          (P : Raft C → Raft C → Type 0)
          → P rf' (peer i)
          → ((r : Raft C) → P r r)
          → (j : ℕ) → P (peer' j) (peer j)
      moved_at P p same j = update-all peer peer i (λ k r r'. P r r') rf' p (λ k. same (peer k)) j

      moved-IsPast : (c t : ℕ) → IsPast (peer c) t → IsPast (peer' c) t
      moved-IsPast c t =
          moved_at (λ r r'. IsPast r' t → IsPast r t) (λ p. ground (arith, p, m.term, m.role))
            (λ r p. p) c

      moved-Acked :
          (a : Ack)
          → (a.term ≤ (peer a.voter).current_term)
            × Acked rs a (peer a.voter).log ((peer a.voter).current_term + 1)
          → (a.term ≤ (peer' a.voter).current_term)
            × Acked rs' a (peer' a.voter).log ((peer' a.voter).current_term + 1)
      moved-Acked a =
          moved_at
            (λ r r'.
              (a.term ≤ r'.current_term) × Acked rs a r'.log (r'.current_term + 1)
              → (a.term ≤ r.current_term) × Acked rs' a r.log (r.current_term + 1))
            (λ (le, k). (omega (arith, le, m.term), m.keeps a le k))
            (λ r (le, k). (
              le,
              Acked-more rs rs' a r.log (r.current_term + 1) (r.current_term + 1) more (omega arith)
                  k,
            ))
            a.voter

      moved-Support :
          (v t c : ℕ) (g : List (LogEntry C))
          → Has (record { voter = v; candidate = c; term = t }) ballots
          → Support rs acks v t g
          → Support rs' acks' v t g
      moved-Support v t c g b s =
          Support-more rs rs' acks acks' v t g more
            (λ a ha. elim (new a ha) [
              | inl old ↦ inl old
              | inr late ↦ inr (λ e.
                  let here : (peer v).current_term ≤ a.term =
                    subst (λ w. (peer w).current_term ≤ a.term) e late in
                  omega (arith, here, cast _ b))
            ])
            s

      moved-Mandate : (r : Reign C) → Mandate n ballots rs acks r → Mandate n ballots' rs' acks' r
      moved-Mandate r d = record {
        voters = d.voters;
        distinct = d.distinct;
        below = d.below;
        majority = d.majority;
        cast = λ v h. stay _ (d.cast v h);
        supported = λ v h.
            let (g, s, p) = d.supported v h in
            (g, moved-Support v r.term r.owner g (d.cast v h) s, p);
      }

      moved-Called : (args : RequestVoteArgs) → Called rs peer args → Called rs' peer' args
      moved-Called args c = record {
        log = c.log;
        sound = Sound-more rs rs' args.term args.term c.log more (omega arith) c.sound;
        older = c.older;
        describes = c.describes;
        asked = moved-Asked peer i rf' rs rs' args.candidate_id args.term c.log m c.asked;
      }

      moved-votes :
          (b : Ballot)
          → Has b ballots
          → ((r : Reign C) → Has r rs' → r.term ≢ b.term)
          → (g : List (LogEntry C)) × Support rs' acks' b.voter b.term g
            × Asked (peer' b.candidate) b.term g
      moved-votes b h none_yet =
          let (g, s, a) = q.votes b h (λ r hr. none_yet r (more r hr)) in
          (
            g,
            moved-Support b.voter b.term b.candidate g h s,
            moved-Asked peer i rf' rs rs' b.candidate b.term g m a,
          )

      -- The invariant after the change, if it holds of the changed peer and of what is new.
      pub grown :
          (calls' : List RequestVoteArgs)
          → Sound rs' rf'.current_term rf'.log
          → (rf'.state ≡ candidate
              → (k : ℕ) (e : LogEntry C) → get_elem? rf'.log k ≡ some e
              → e.term < rf'.current_term)
          → (rf'.state ≡ leader
              → Has (record { owner = i; term = rf'.current_term; log = rf'.log }) rs')
          → ((j : ℕ) (r : Reign C)
              → (peer' j).state ≡ leader
              → Has r rs'
              → r.term ≡ (peer' j).current_term
              → IsPrefix r.log (peer' j).log)
          → ((r r' : Reign C) → Has r rs' → Has r' rs' → r.term ≡ r'.term → Comparable r.log r'.log)
          → ((r : Reign C)
              → Has r rs'
              → Has r rs
                ⊎ (Sound rs' r.term r.log
                    × (0 < r.term)
                    × IsPast (peer' r.owner) r.term
                    × Mandate n ballots' rs' acks' r))
          → ((b : Ballot)
              → Has b ballots'
              → Has b ballots
                ⊎ (((r : Reign C) → Has r rs' → r.term ≢ b.term)
                    → (g : List (LogEntry C)) × Support rs' acks' b.voter b.term g
                      × Asked (peer' b.candidate) b.term g))
          → ((args : RequestVoteArgs) → Has args calls' → Has args calls ⊎ Called rs' peer' args)
          → ((a : Ack)
              → Has a acks'
              → Has a acks
                ⊎ ((a.term ≤ (peer' a.voter).current_term)
                    × Acked rs' a (peer' a.voter).log ((peer' a.voter).current_term + 1)))
          → Quorate n peer' ballots' calls' rs' acks'
      grown calls' sound fresh leads owns chain reigns votes called acked = record {
        logs =
            update-all peer peer i (λ j r r'. Sound rs' r.current_term r.log) rf' sound
              (λ j.
                Sound-more rs rs' (peer j).current_term (peer j).current_term (peer j).log more
                  (omega arith) (q.logs j));
        fresh =
            update-all peer peer i
              (λ j r r'.
                r.state ≡ candidate
                → (k : ℕ) (e : LogEntry C) → get_elem? r.log k ≡ some e
                → e.term < r.current_term)
              rf' fresh q.fresh;
        leads =
            update-all peer peer i
              (λ j r r'.
                r.state ≡ leader
                → Has (record { owner = j; term = r.current_term; log = r.log }) rs')
              rf' leads (λ j l. more _ (q.leads j l));
        owns = owns;
        chain = chain;
        sound = λ r h. elim (reigns r h) [
          | inl old ↦
              let (s, p) = q.sound r old in
              (Sound-more rs rs' r.term r.term r.log more (omega arith) s, p)
          | inr (s, p, _, _) ↦ (s, p)
        ];
        past = λ r h. elim (reigns r h) [
          | inl old ↦ moved-IsPast r.owner r.term (q.past r old)
          | inr (s, p, a, _) ↦ a
        ];
        mandates = λ r h. elim (reigns r h) [
          | inl old ↦ moved-Mandate r (q.mandates r old)
          | inr (s, p, a, d) ↦ d
        ];
        votes = λ b h none_yet. elim (votes b h) [
          | inl old ↦ moved-votes b old none_yet
          | inr v ↦ v none_yet
        ];
        called = λ args h. elim (called args h) [
          | inl old ↦ moved-Called args (q.called args old)
          | inr c ↦ c
        ];
        acked = λ a h. elim (acked a h) [ inl old ↦ moved-Acked a (q.acked a old) | inr k ↦ k ];
      }
