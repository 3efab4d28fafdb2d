-- ===== src/Raft/Consensus/Runs/Counting.antt =====
-- The turn in which a leader counts what was acknowledged, and commits it.
use mathlib.Core.Path.{subst}
use mit.Prelude.{
  ℕ, ◌+◌, ◌-◌, ◌*◌, ◌≡◌, ◌≤◌, ◌<◌, ◌⊎◌, inl, inr, some, List, arith, length, get_elem?,
  get_elem?_le, refl, sym, ◌∙◌, ◌∷◌, Bool-cases, Option-cases, All, ◌==◌,
}
use mit.Raft.Types.{Raft, leader}
use mit.Raft.Gob.{Gob}
use mit.Raft.Local.{term_at, entry_at, sub_snapshot_index}
use mit.Raft.Replicate.{Round, Outcome, handle_success}
use mit.Raft.Replicate.Commit.{commit_rule}
use mit.Raft.Steps.{success}
use mit.Raft.Steps.Monotone.{Quiet-Keeps}
use mit.Raft.Steps.Role.{Quiet-KeepsRole}
use mit.Raft.Cluster.{update, count}
use mit.Raft.Cluster.Updates.{update_self}
use mit.Raft.Network.Life.{Life, KeepsRole-Life, Quiet-SameLog}
use mit.Raft.Network.Matching.{Safe}
use mit.Raft.Consensus.{Ack, System, HasReply}
use mit.Raft.Consensus.Reigns.{Acked}
use mit.Raft.Consensus.Quorum.{Certified}
use mit.Raft.Consensus.Steady.{quietly, steady}
use mit.Raft.Consensus.Runs.{Request-more, Held, commits_on, same_reigns}

module _ {C : Type 0} (gob : Gob C) (n : ℕ) where
  module _ {s : System C} (safe : Safe gob n s.network) (held : Held gob n s) where
    abbrev peer : ℕ → Raft C
    peer = s.network.cluster.peer

    -- The leader's own log counts as an acknowledgement of all of it.
    abbrev own_ack : ℕ → Ack
    own_ack i = record { voter = i; term = (peer i).current_term; index = length (peer i).log - 1 }

    -- A majority that has acknowledged an entry of the leader's term certifies it.
    certificate :
        (i index : ℕ) (voters : List ℕ)
        → (peer i).state ≡ leader
        → term_at (peer i) index ≡ some (peer i).current_term
        → n < 2 * length voters
        → ((v : ℕ) → count v voters ≤ 1)
        → All (λ v. v < n) voters
        → ((v : ℕ)
            → 0 < count v voters
            → (v ≡ i) ⊎ HasReply v (peer i).current_term index s.replies)
        → (c : Certified n held.reigns (own_ack i ∷ held.acks)) × (c.index ≡ index)
          × (c.reign.log ≡ (peer i).log)
          × (c.reign.term ≡ (peer i).current_term)
    unfolding term_at entry_at sub_snapshot_index
    certificate i index voters l at majority distinct below acked =
        elim (Option-cases (get_elem? (peer i).log index)) [
          | inl out ↦ absurd (ground (arith, at, (safe.logs.known i).base, out))
          | inr (x, found) ↦
              let within : index < length (peer i).log =
                ground (arith, found, get_elem?_le (peer i).log index) in
              (
                record {
                  reign = record { owner = i; term = (peer i).current_term; log = (peer i).log };
                  inside = held.quorate.leads i l;
                  index = index;
                  entry = x;
                  at = found;
                  term = ground (arith, at, (safe.logs.known i).base, found);
                  voters = voters;
                  distinct = distinct;
                  below = below;
                  majority = majority;
                  acked = λ v vh. elim (acked v vh) [
                    | inl e ↦ (own_ack i, inl refl, sym e, refl, omega (arith, within))
                    | inr (a, ha, av, at', ai) ↦ (a, inr (held.replies a ha), av, at', ai)
                  ];
                },
                refl,
                refl,
                refl,
              )
        ]

    -- The leader keeps what it acknowledges.
    own_ack-Acked :
        (i : ℕ) (rf : Raft C)
        → (peer i).state ≡ leader
        → Life gob n (peer i) rf
        → rf.log ≡ (peer i).log
        → (a : Ack) → own_ack i ≡ a
        → ((peer a.voter).current_term ≤ a.term)
          × (a.term ≤ (update peer i rf a.voter).current_term)
          × Acked held.reigns a
              (update peer i rf a.voter).log
              ((update peer i rf a.voter).current_term + 1)
    own_ack-Acked i rf l life same a e =
        subst
          (λ a.
            ((peer a.voter).current_term ≤ a.term)
            × (a.term ≤ (update peer i rf a.voter).current_term)
            × Acked held.reigns a (update peer i rf a.voter).log
                ((update peer i rf a.voter).current_term + 1))
          e
          (
            omega arith,
            rw (update_self peer i rf) life.term,
            rw (update_self peer i rf) (record {
              root = record { owner = i; term = (peer i).current_term; log = (peer i).log };
              inside = held.quorate.leads i l;
              term = refl;
              long = omega (arith, (held.quorate.logs i).filled);
              kept = λ k lk mid j' e' lj at'. rw same at';
            }),
          )

    pub agree-Held :
        (i j index : ℕ) (r r' : Round) (o : Outcome) (voters : List ℕ) (rf : Raft C)
        → handle_success j index r (peer i) ≡ some (rf, r', o)
        → r.n_replica + 1 ≡ length voters
        → ((v : ℕ) → count v voters ≤ 1)
        → All (λ v. v < n) voters
        → ((v : ℕ)
            → 0 < count v voters
            → (v ≡ i) ⊎ HasReply v (peer i).current_term index s.replies)
        → Held gob n (record s {
          network = record s.network {
            cluster = record s.network.cluster { peer = update peer i rf };
          };
        })
    agree-Held i j index r r' o voters rf h counted distinct below acked =
        let m = success j index r r' o h in
        let role = Quiet-KeepsRole gob m in
        let life = KeepsRole-Life gob n (peer i) rf (Quiet-Keeps gob m).0 role in
        let same = (Quiet-SameLog gob n m tt).0 in
        let lost : rf.state ≡ leader → (peer i).state ≡ leader =
          λ lead. elim role [ inl f ↦ cc | inr (r, tm) ↦ sym r ∙ lead ] in
        let b = s.network.cluster.ballots in
        let cast = safe.elections.votes.cast in
        let acks' = own_ack i ∷ held.acks in
        elim (Bool-cases (rf.commit_index == (peer i).commit_index)) [
          | inl e ↦ same_reigns gob n safe held _ i rf refl life.term same (ground (arith, e)) (
              quietly gob n peer b s.calls held.reigns held.acks held.quorate cast i rf life same
                lost)
          | inr ne ↦
              let (l, above, commit, at, most) =
                commit_rule j index r r' o (peer i) rf h (λ z. ground (arith, ne, z)) in
              let (c, ci, cl, ct) =
                certificate i index voters l at
                  (omega (arith, counted, most, safe.elections.peers.size i)) distinct below
                  acked in
              record {
                reigns = held.reigns;
                acks = acks';
                quorate =
                    steady gob n peer b s.calls held.reigns held.acks held.quorate cast i rf b
                      s.calls acks' life same lost (λ b h'. h') (λ b h'. inl h') (λ args h'. inl h')
                      (λ a ha. elim ha [
                        | inl e ↦ inr (own_ack-Acked i rf l life same a e)
                        | inr old ↦ inl old
                      ]);
                requests = λ args' h'.
                    Request-more gob n held.reigns held.reigns held.acks acks' args' (λ r h'. h')
                      (λ a h'. inr h') (held.requests args' h');
                replies = λ a ha. inr (held.replies a ha);
                commits =
                    commits_on gob n safe held i rf held.reigns acks' (λ r h'. h') (λ a h'. inr h')
                      (inr (record {
                        by = c;
                        term = omega (arith, ct, life.term);
                        below = omega (arith, commit, ci);
                        same = λ j' e' lj at'. rw (same, sym cl) at';
                      }));
              }
        ]
