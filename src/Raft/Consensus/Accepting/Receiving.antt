-- ===== src/Raft/Consensus/Accepting/Receiving.antt =====
-- What all peers have when one of them has received the entries of a leader.
use mathlib.Core.Path.{subst}
use mit.Prelude.{ℕ, ◌+◌, ◌≡◌, ◌≤◌, inl, inr, some, List, arith, get_elem?_le, refl, ◌∷◌, true}
use native.Mathlib.Decide.{dec_lt}
use mit.Raft.Types.{
  Raft, leader, follower, RequestVoteArgs, AppendEntriesArgs, AppendEntriesReply, Tick,
}
use mit.Raft.Gob.{Gob}
use mit.Raft.Append.{append_entries}
use mit.Raft.Append.Reply.{append_entries_agrees}
use mit.Raft.Append.Differs.{Differs, append_entries-Differs}
use mit.Raft.Append.Written.{Accepts, append_entries-Accepts}
use mit.Raft.Cluster.{Ballot, Has, update}
use mit.Raft.Cluster.Updates.{update-all}
use mit.Raft.Network.Prefix.{IsPrefix}
use mit.Raft.Network.Life.{Life}
use mit.Raft.Network.History.{Sent}
use mit.Raft.Network.Followers.{accepted_prefix}
use mit.Raft.Consensus.{Ack}
use mit.Raft.Consensus.Reigns.{Reign, Sound, Sound-more, Sound-prefix, Upto}
use mit.Raft.Consensus.Reigns.Common.{replaced-Upto}
use mit.Raft.Consensus.Quorum.{Quorate, Certified, complete}
use mit.Raft.Consensus.Growth.{grown}
use mit.Raft.Consensus.Steady.{steady}
use mit.Raft.Consensus.Accepting.{reach, matching, written_at, written-kept, ack-Acked, ack-late}

module _ {C : Type 0} (gob : Gob C) (n : ℕ) where
  module _ (peer : ℕ → Raft C) (ballots : List Ballot) (calls : List RequestVoteArgs)
      (rs : List (Reign C)) (acks : List Ack) (q : Quorate n peer ballots calls rs acks)
      (cast : (b : Ballot) → Has b ballots → b.term ≤ (peer b.voter).current_term) where
    module _ (i : ℕ) (args : AppendEntriesArgs C) (t u : Tick) (rf' : Raft C)
        (reply : AppendEntriesReply) (r : Reign C) (hr : Has r rs) (tr : r.term ≡ args.term)
        (s : Sent args r.log) (base : (peer i).last_included_index ≡ 0)
        (run : append_entries gob args t u (peer i) ≡ some (rf', reply)) where
      abbrev Received : Type 0
      Received =
          Quorate n (update peer i rf') ballots calls rs
            (record { voter = i; term = args.term; index = reach args } ∷ acks)

      module _ (ok : reply.success ≡ true) (base' : rf'.last_included_index ≡ 0)
          (le : (peer i).current_term ≤ args.term) (tm : rf'.current_term ≡ args.term) where
        -- The request had nothing that the log did not have.
        unwritten :
            Life gob n (peer i) rf'
            → (rf'.state ≡ leader → (peer i).state ≡ leader)
            → rf'.log ≡ (peer i).log
            → Received
        unwritten life lost same =
            let sound : Sound rs args.term rf'.log = rw same (
              Sound-more rs rs (peer i).current_term args.term (peer i).log (λ r h. h) le
                (q.logs i)) in
            steady gob n peer ballots calls rs acks q cast i rf' ballots calls _ life same lost
              (λ b h. h) (λ b h. inl h) (λ args h. inl h)
              (λ a h. elim h [
                | inl e ↦
                    let (hi, k) =
                      ack-Acked gob n peer ballots calls rs acks q cast i args t u rf' reply r hr tr
                        s base run ok base' sound tm a e in
                    inr (
                      ack-late gob n peer ballots calls rs acks q cast i args t u rf' reply r hr tr
                          s base run ok base' sound le a e,
                      hi,
                      k,
                    )
                | inr old ↦ inl old
              ])

        -- It had, and the peer has written its entries.
        written :
            Accepts gob args (peer i) rf'
            → Differs (peer i).log args.entries (args.prev_log_index + 1)
            → Received
        written acc d =
            let (p, filled) =
              accepted_prefix gob n args (peer i) rf' (peer i).log r.log base (λ k e at. at)
                (matching gob n peer ballots calls rs acks q cast i args t u rf' reply r hr tr s
                  base run)
                s acc in
            let sound : Sound rs args.term rf'.log =
              Sound-prefix rs args.term rf'.log r.log p filled
                (subst (λ b. Sound rs b r.log) tr (q.sound r hr).0) in
            let role : rf'.state ≡ follower = acc.role in
            grown n peer ballots calls rs acks q cast i rf' rs _ ballots (λ r h. h) (λ b h. h)
              (λ a h. elim h [
                | inl e ↦ inr (
                    ack-late gob n peer ballots calls rs acks q cast i args t u rf' reply r hr tr s
                      base run ok base' sound le a e)
                | inr old ↦ inl old
              ])
              (record {
                term = omega (arith, le, tm);
                role = λ c. cc;
                keeps = λ a la k. rw tm (
                    written-kept gob n peer ballots calls rs acks q cast i args t u rf' reply r hr
                      tr s base run acc d p le a la k);
              })
              calls (rw tm sound) (λ c. cc) (λ l. cc)
              (update-all peer peer i
                (λ j r' r₀.
                  (r : Reign C)
                  → r'.state ≡ leader
                  → Has r rs
                  → r.term ≡ r'.current_term
                  → IsPrefix r.log r'.log)
                rf' (λ r l h e. cc) (λ j r. q.owns j r))
              q.chain (λ r h. inl h) (λ b h. inl h) (λ args h. inl h)
              (λ a h. elim h [
                | inl e ↦ inr (
                    ack-Acked gob n peer ballots calls rs acks q cast i args t u rf' reply r hr tr s
                      base run ok base' sound tm a e)
                | inr old ↦ inl old
              ])

      -- A peer that replies success to a leader.
      pub receiving :
          reply.success ≡ true
          → rf'.last_included_index ≡ 0
          → Life gob n (peer i) rf'
          → (rf'.state ≡ leader → (peer i).state ≡ leader)
          → Quorate n
              (update peer i rf')
              ballots
              calls
              rs
              (record { voter = i; term = args.term; index = reach args } ∷ acks)
      receiving ok base' life lost =
          let (le, tm, prev, stored) =
            append_entries_agrees gob args t u (peer i) rf' reply run ok in
          elim (append_entries-Accepts gob args t u (peer i) rf' reply run) [
            | inl same ↦ unwritten ok base' le tm life lost same
            | inr acc ↦ elim (append_entries-Differs gob args t u (peer i) rf' reply base run) [
              | inl same ↦ unwritten ok base' le tm life lost same
              | inr d ↦ written ok base' le tm acc d
            ]
          ]

      -- What a majority has acknowledged stays in the log.
      pub received-Upto :
          reply.success ≡ true
          → (c : Certified n rs acks) → c.reign.term ≤ (peer i).current_term
          → (k : ℕ) → k ≤ c.index
          → Upto k c.reign.log (peer i).log
          → Upto k c.reign.log rf'.log
      received-Upto ok c ct k lk up =
          let (le, tm, prev, stored) =
            append_entries_agrees gob args t u (peer i) rf' reply run ok in
          elim (append_entries-Accepts gob args t u (peer i) rf' reply run) [
            | inl same ↦ λ j e lj at. rw same (up j e lj at)
            | inr acc ↦ elim (append_entries-Differs gob args t u (peer i) rf' reply base run) [
              | inl same ↦ λ j e lj at. rw same (up j e lj at)
              | inr d ↦
                  replaced-Upto k (args.prev_log_index + 1 + d.offset) c.reign.log r.log rf'.log
                    (peer i).log d.entry (ground (arith, get_elem?_le c.reign.log c.index, c.at))
                    (elim (dec_lt c.reign.term r.term) [
                      | yes later ↦ inl (λ j e lj at.
                          complete n peer ballots calls rs acks q c r hr later j e (omega arith) at)
                      | no same ↦
                          elim (q.chain c.reign r c.inside hr (omega (arith, same, ct, le, tr))) [
                            | inl p ↦ inl (λ j e lj at. p j e at)
                            | inr p ↦ inr p
                          ]
                    ])
                    (accepted_prefix gob n args (peer i) rf' (peer i).log r.log base (λ k' e at. at)
                      (matching gob n peer ballots calls rs acks q cast i args t u rf' reply r hr tr
                        s base run)
                      s acc).0
                    (written_at gob n peer ballots calls rs acks q cast i args t u rf' reply r hr tr
                      s base run acc d)
                    (λ z. d.other d.entry z refl) up
            ]
          ]
