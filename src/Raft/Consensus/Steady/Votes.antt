-- ===== src/Raft/Consensus/Steady/Votes.antt =====
-- The turns in which a peer asks for votes, and gives its own.
use mathlib.Core.Path.{subst}
use mit.Prelude.{
  ℕ, ◌+◌, ◌-◌, ◌≡◌, ◌≤◌, ◌<◌, inl, inr, some, List, arith, length, get_elem?, get_elem?_lt, refl,
  sym, ap, ◌∙◌, ◌∷◌, true,
}
use mit.Raft.Types.{LogEntry, Raft, candidate, leader, RequestVoteArgs, RequestVoteReply, Tick}
use mit.Raft.Gob.{Gob}
use mit.Raft.Local.{term_at, entry_at, sub_snapshot_index, last_log_index}
use mit.Raft.Vote.{request_vote, vote_args}
use mit.Raft.Vote.Rules.{Deserves, vote_granted_iff}
use mit.Raft.Cluster.{Ballot, Has, update}
use mit.Raft.Cluster.Updates.{update_self}
use mit.Raft.Network.Life.{Life}
use mit.Raft.Consensus.{Ack}
use mit.Raft.Consensus.Reigns.{Reign, Sound-more, Acked, Acked-limit, Recent}
use mit.Raft.Consensus.Quorum.{Asked, Backed, Called, Describes, Quorate}
use mit.Raft.Consensus.Growth.{moved-Asked}
use mit.Raft.Consensus.Steady.{still-Moved, steady}

module _ {C : Type 0} (gob : Gob C) (n : ℕ) where
  module _ (peer : ℕ → Raft C) (ballots : List Ballot) (calls : List RequestVoteArgs)
      (rs : List (Reign C)) (acks : List Ack) (q : Quorate n peer ballots calls rs acks)
      (cast : (b : Ballot) → Has b ballots → b.term ≤ (peer b.voter).current_term) where
    last_Recent : (x : List (LogEntry C)) → 0 < length x → Recent x x
    last_Recent x f =
        let (e, at) = get_elem?_lt x (length x - 1) (omega arith) in
        record { g_last = e; x_last = e; g_at = at; x_at = at; order = inr (refl, omega arith) }

    -- A peer asks for votes in a new term, and votes for itself.
    pub standing :
        (i : ℕ) (rf' : Raft C)
        → Life gob n (peer i) rf'
        → rf'.log ≡ (peer i).log
        → rf'.state ≡ candidate
        → rf'.current_term ≡ (peer i).current_term + 1
        → Quorate n
            (update peer i rf')
            (record { voter = i; candidate = i; term = (peer i).current_term + 1 } ∷ ballots)
            calls
            rs
            acks
    standing i rf' life same c tm =
        let sound =
          Sound-more rs rs (peer i).current_term ((peer i).current_term + 1) (peer i).log (λ r h. h)
            (omega arith) (q.logs i) in
        steady gob n peer ballots calls rs acks q cast i rf' _ calls acks life same (λ l. cc)
          (λ b h. inr h)
          (λ b h. elim h [
            | inl e ↦ inr (λ none_yet. subst (Backed rs acks (update peer i rf')) e (
              (peer i).log,
              record {
                mine = (peer i).log;
                mine_sound = sound;
                sound = sound;
                older = λ k x at. omega (arith, (q.logs i).bounded k x at);
                recent = last_Recent (peer i).log (q.logs i).filled;
                keeps = λ a ha v lt.
                    let (le, k) = q.acked a ha in
                    subst (λ j. Acked rs a (peer j).log ((peer j).current_term + 1)) v k;
              },
              rw (update_self peer i rf') (omega (arith, tm), λ t s. same),
            ))
            | inr old ↦ inl old
          ])
          (λ args h. inl h) (λ a h. inl h)

    -- What a request for votes describes is as recent as the log of a peer that deserves its vote.
    granted-Recent :
        (args : RequestVoteArgs) (i : ℕ) (g : List (LogEntry C)) (last : LogEntry C)
        → (peer i).last_included_index ≡ 0
        → get_elem? (peer i).log (length (peer i).log - 1) ≡ some last
        → Describes args g
        → 0 < length g
        → 0 < length (peer i).log
        → Deserves gob args (peer i) last.term
        → Recent g (peer i).log
    unfolding last_log_index
    granted-Recent args i g last base at d f f' de = record {
      g_last = d.last;
      x_last = last;
      g_at = d.at;
      x_at = at;
      order = ground (arith, d.term, d.index, de.recent, base);
    }

    -- A vote for a candidate that has asked for it.
    pub voting :
        (i : ℕ) (args : RequestVoteArgs) (t : Tick) (rf' : Raft C) (reply : RequestVoteReply)
        → Has args calls
        → (peer i).last_included_index ≡ 0
        → request_vote gob args t (peer i) ≡ some (rf', reply)
        → reply.vote_granted ≡ true
        → Life gob n (peer i) rf'
        → rf'.log ≡ (peer i).log
        → (rf'.state ≡ leader → (peer i).state ≡ leader)
        → Quorate n
            (update peer i rf')
            (record { voter = i; candidate = args.candidate_id; term = args.term } ∷ ballots)
            calls
            rs
            acks
    unfolding term_at entry_at sub_snapshot_index last_log_index
    voting i args t rf' reply h base run granted life same lost =
        let c = q.called args h in
        let (last, at) =
          get_elem?_lt (peer i).log (length (peer i).log - 1) (omega (arith, (q.logs i).filled)) in
        let d =
          (vote_granted_iff gob args t (peer i) rf' reply last.term (ground (arith, at, base))
              run).0
            granted in
        steady gob n peer ballots calls rs acks q cast i rf' _ calls acks life same lost
          (λ b h. inr h)
          (λ b h. elim h [
            | inl e ↦ inr (λ none_yet. subst (Backed rs acks (update peer i rf')) e (
              c.log,
              record {
                mine = (peer i).log;
                mine_sound =
                    Sound-more rs rs (peer i).current_term args.term (peer i).log (λ r h. h)
                      d.not_old (q.logs i);
                sound = c.sound;
                older = c.older;
                recent =
                    granted-Recent args i c.log last base at c.describes c.sound.filled
                      (q.logs i).filled d;
                keeps = λ a ha v lt.
                    let (le, k) = q.acked a ha in
                    Acked-limit rs a (peer i).log ((peer i).current_term + 1) args.term
                      (omega (arith, d.not_old)) (λ r hr z. none_yet r hr (z ∙ ap (λ x. x.term) e))
                      (subst (λ j. Acked rs a (peer j).log ((peer j).current_term + 1)) v k);
              },
              moved-Asked peer i rf' rs rs args.candidate_id args.term c.log
                  (still-Moved gob n rs rs (peer i) rf' (λ r h. h) life same) c.asked,
            ))
            | inr old ↦ inl old
          ])
          (λ args h. inl h) (λ a h. inl h)

    -- A candidate asks for votes.
    pub asking :
        (i : ℕ) (args : RequestVoteArgs)
        → (peer i).state ≡ candidate
        → (peer i).last_included_index ≡ 0
        → (peer i).me ≡ i
        → vote_args (peer i) ≡ some args
        → Quorate n peer ballots (args ∷ calls) rs acks
    unfolding vote_args term_at entry_at sub_snapshot_index last_log_index
    asking i args c base me made =
        let (last, at) =
          get_elem?_lt (peer i).log (length (peer i).log - 1) (omega (arith, (q.logs i).filled)) in
        let tm : (peer i).current_term ≡ args.term = ground arith in
        let who : args.candidate_id ≡ i = ground (arith, me) in
        record {
          logs = q.logs;
          fresh = q.fresh;
          leads = q.leads;
          owns = q.owns;
          chain = q.chain;
          sound = q.sound;
          past = q.past;
          mandates = q.mandates;
          votes = q.votes;
          acked = q.acked;
          called = λ args' h. elim h [
            | inl e ↦ subst (Called rs peer) e (record {
              log = (peer i).log;
              sound = rw (sym tm) (q.logs i);
              older = λ k x at'. rw (sym tm) (q.fresh i c k x at');
              describes = record {
                last = last;
                at = at;
                term = ground (arith, at, base);
                index = ground (arith, base);
              };
              asked =
                  subst (λ j. Asked (peer j) args.term (peer i).log) (sym who)
                    (omega (arith, tm), λ t' s. refl);
            })
            | inr old ↦ q.called args' old
          ];
        }
