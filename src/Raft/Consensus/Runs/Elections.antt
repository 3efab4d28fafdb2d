-- ===== src/Raft/Consensus/Runs/Elections.antt =====
-- The turns of one peer: timers, elections, votes, restarts and submitted commands.
use mathlib.Core.Path.{subst}
use mit.Prelude.{
  ℕ, ◌+◌, ◌≡◌, ◌≤◌, ◌⊎◌, inl, inr, some, arith, length, get_elem?_le, get_elem?-append_left, ◌++◌,
  refl, sym, ap, ◌∙◌, [], ◌∷◌, true, Bool-cases, if◌then◌else◌,
}
use mit.Raft.Types.{LogEntry, Raft, candidate, leader, RequestVoteArgs, RequestVoteReply, Tick}
use mit.Raft.Gob.{Gob}
use mit.Raft.Vote.{start_election, handle_vote_reply, request_vote}
use mit.Raft.Steps.{Quiet}
use mit.Raft.Steps.Monotone.{Quiet-Keeps, request_vote-Keeps}
use mit.Raft.Steps.Role.{Quiet-KeepsRole, request_vote-KeepsRole}
use mit.Raft.Service.Restart.{make-Remade}
use mit.Raft.Service.{append_command, make}
use mit.Raft.Cluster.{Has, update, Cluster, Move, quiet, grant, elect, tally_vote, restart}
use mit.Raft.Cluster.Invariant.{Inv}
use mit.Raft.Cluster.Updates.{update_self}
use mit.Raft.Network.{LeavesLog}
use mit.Raft.Network.Life.{
  KeepsRole-Life, Quiet-SameLog, start_election-Life, handle_vote_reply-Life, request_vote-SameLog,
}
use mit.Raft.Network.History.{Won, leader-Won}
use mit.Raft.Network.Matching.{Safe}
use mit.Raft.Consensus.{System, IsPlain, IsUncounted}
use mit.Raft.Consensus.Steady.{quietly}
use mit.Raft.Consensus.Steady.Votes.{standing, voting}
use mit.Raft.Consensus.Leading.{winning}
use mit.Raft.Consensus.Leading.Extending.{extending}
use mit.Raft.Consensus.Commits.{
  Quiet-SameCommit, request_vote-SameCommit, handle_vote_reply-SameCommit,
  start_election-SameCommit, make_commit,
}
use mit.Raft.Consensus.Runs.{Held, same_reigns, new_reign}

module _ {C : Type 0} (gob : Gob C) (n : ℕ) where
  -- What a granted vote makes of the peer that counts it.
  counted_vote :
      (reply : RequestVoteReply) (m : ℕ) (rf : Raft C)
      → reply.vote_granted ≡ true
      → let rf' = (handle_vote_reply gob reply m rf).0 in
        (rf' ≡ rf)
        ⊎ ((rf.state ≡ candidate) × (rf'.state ≡ leader) × (rf'.current_term ≡ rf.current_term))
  unfolding handle_vote_reply
  counted_vote reply m rf g = ground arith

  module _ {s : System C} (safe : Safe gob n s.network) (held : Held gob n s) where
    abbrev peer : ℕ → Raft C
    peer = s.network.cluster.peer

    abbrev inv : Inv gob n s.network.cluster
    inv = safe.elections

    abbrev Next : Cluster C → Type 0
    Next c = Held gob n (record s { network = record s.network { cluster = c } })

    quiet-Held :
        (i : ℕ) (rf : Raft C) (m : Quiet gob (peer i) rf)
        → LeavesLog gob n m
        → IsUncounted gob n m
        → Next (record s.network.cluster { peer = update peer i rf })
    quiet-Held i rf m l c =
        let role = Quiet-KeepsRole gob m in
        let same = (Quiet-SameLog gob n m l).0 in
        same_reigns gob n safe held _ i rf refl (Quiet-Keeps gob m).0.term same
          (omega (arith, Quiet-SameCommit gob n m l c))
          (quietly gob n peer _ s.calls held.reigns held.acks held.quorate inv.votes.cast i rf
            (KeepsRole-Life gob n (peer i) rf (Quiet-Keeps gob m).0 role) same
            (λ lead. elim role [ inl f ↦ cc | inr (r, tm) ↦ sym r ∙ lead ]))

    elect-Held :
        (i : ℕ) (t : Tick)
        → Next (record {
          peer = update peer i (start_election gob t (peer i));
          ballots =
              record { voter = i; candidate = i; term = (peer i).current_term + 1 }
              ∷ s.network.cluster.ballots;
          tally = update s.network.cluster.tally i (i ∷ []);
        })
    unfolding start_election
    elect-Held i t =
        let (life, same) = start_election-Life gob n t (peer i) in
        same_reigns gob n safe held _ i (start_election gob t (peer i)) refl life.term same.0
          (omega (arith, start_election-SameCommit gob n t (peer i)))
          (standing gob n peer _ s.calls held.reigns held.acks held.quorate inv.votes.cast i
            (start_election gob t (peer i)) life same.0 (ground arith) (ground arith))

    tally-Held :
        (i v t : ℕ) (reply : RequestVoteReply) (c : Cluster C)
        → reply.vote_granted ≡ true
        → c.peer
          ≡ update peer i
              (handle_vote_reply gob reply (length (s.network.cluster.tally i)) (peer i)).0
        → c.ballots ≡ s.network.cluster.ballots
        → Inv gob n c
        → Next c
    tally-Held i v t reply c g pe be inv' =
        let m = length (s.network.cluster.tally i) in
        let rf' = (handle_vote_reply gob reply m (peer i)).0 in
        let (life, same) = handle_vote_reply-Life gob n reply m (peer i) in
        let less : rf'.commit_index ≤ (peer i).commit_index =
          omega (arith, handle_vote_reply-SameCommit gob n reply m (peer i)) in
        elim (counted_vote reply m (peer i) g) [
          | inl e ↦ same_reigns gob n safe held c i rf' pe life.term same.0 less (
              rw be (
                quietly gob n peer _ s.calls held.reigns held.acks held.quorate inv.votes.cast i rf'
                  life same.0 (λ l. rw (sym e) l)))
          | inr (was, l, tm) ↦
              let at : c.peer i ≡ rf' = rw pe (update_self peer i rf') in
              let won : Won n c i (peer i).current_term =
                subst (Won n c i) (ap (λ r. r.current_term) at ∙ tm)
                  (leader-Won gob n c i inv' (ap (λ r. r.state) at ∙ l)) in
              new_reign gob n safe held c i rf'
                (record { owner = i; term = (peer i).current_term; log = (peer i).log }) pe
                life.term (λ k x at'. rw same.0 at') less
                (rw be (
                  winning gob n peer s.network.cluster.ballots s.calls held.reigns held.acks
                    held.quorate inv.votes.cast inv.votes.once i rf' c won
                    (λ v h.
                      subst
                        (Has (record { voter = v; candidate = i; term = (peer i).current_term })) be
                        (won.cast v h))
                    was l tm same.0 life))
        ]

    restart-Held :
        (i : ℕ) (t : Tick) (rf : Raft C)
        → make gob n i (peer i).persister t ≡ some rf
        → Next (record s.network.cluster { peer = update peer i rf })
    restart-Held i t rf h =
        let r = make-Remade gob (peer i) rf n i t (inv.peers.durable i) h in
        same_reigns gob n safe held _ i rf refl (ground (arith, r.term)) r.log
          (omega (arith, make_commit gob n n i (peer i).persister t rf h, r.base))
          (quietly gob n peer _ s.calls held.reigns held.acks held.quorate inv.votes.cast i rf
            (record { term = ground (arith, r.term); role = inl r.role }) r.log
            (λ l. ground (arith, r.role, l)))

    pub vote-Held :
        (i : ℕ) (args : RequestVoteArgs) (t : Tick) (rf : Raft C) (reply : RequestVoteReply)
        → Has args s.calls
        → request_vote gob args t (peer i) ≡ some (rf, reply)
        → Next (record s.network.cluster {
          peer = update peer i rf;
          ballots =
              if reply.vote_granted
              then record { voter = i; candidate = args.candidate_id; term = args.term }
                ∷ s.network.cluster.ballots
              else s.network.cluster.ballots;
        })
    vote-Held i args t rf reply hc h =
        let role = request_vote-KeepsRole gob args t (peer i) rf reply h in
        let life =
          KeepsRole-Life gob n (peer i) rf (request_vote-Keeps gob args t (peer i) rf reply h).0
            role in
        let same = (request_vote-SameLog gob n args t (peer i) rf reply h).0 in
        let less : rf.commit_index ≤ (peer i).commit_index =
          omega (arith, request_vote-SameCommit gob n args t (peer i) rf reply h) in
        let lost : rf.state ≡ leader → (peer i).state ≡ leader =
          λ lead. elim role [ inl f ↦ cc | inr (r, tm) ↦ sym r ∙ lead ] in
        elim (Bool-cases reply.vote_granted) [
          | inl yes' ↦ same_reigns gob n safe held _ i rf refl life.term same less (
              rw yes' (
                voting gob n peer _ s.calls held.reigns held.acks held.quorate inv.votes.cast i args
                  t rf reply hc (safe.logs.known i).base h yes' life same lost))
          | inr no' ↦ same_reigns gob n safe held _ i rf refl life.term same less (
              rw no' (
                quietly gob n peer _ s.calls held.reigns held.acks held.quorate inv.votes.cast i rf
                  life same lost))
        ]

    pub other-Held :
        {c : Cluster C} (m : Move gob n s.network.cluster c)
        → IsPlain gob n m
        → Inv gob n c
        → Next c
    other-Held (quiet i {rf} q) (l, u) inv' = quiet-Held i rf q l u
    other-Held (grant i args t lt h) p inv' = elim p [ ]
    other-Held (elect i t lt) p inv' = elect-Held i t
    other-Held (tally_vote i v t reply g hb cur fresh) p inv' =
        tally-Held i v t reply _ g refl refl inv'
    other-Held (restart i t {rf} h) p inv' = restart-Held i t rf h

    pub submit-Held :
        (i : ℕ) (c : C) (now : ℕ)
        → (peer i).state ≡ leader
        → Next (record s.network.cluster {
          peer = update peer i (append_command gob c now (peer i)).0;
        })
    unfolding append_command
    submit-Held i c now l =
        let rf' = (append_command gob c now (peer i)).0 in
        let e : LogEntry C = record {
          command = some c;
          term = (peer i).current_term;
          index = length (peer i).log + (peer i).last_included_index;
        } in
        new_reign gob n safe held _ i rf'
          (record { owner = i; term = (peer i).current_term; log = (peer i).log ++ e ∷ [] }) refl
          (omega arith)
          (λ k x at.
            ground (
              arith,
              get_elem?_le (peer i).log k,
              at,
              get_elem?-append_left (peer i).log (e ∷ []) k,
            ))
          (omega arith)
          (extending gob n peer s.network.cluster.ballots s.calls held.reigns held.acks held.quorate
            inv.votes.cast inv.votes.once i rf' e refl l (ground (arith, l)) refl refl)
