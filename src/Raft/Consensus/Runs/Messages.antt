-- ===== src/Raft/Consensus/Runs/Messages.antt =====
-- The turns in which requests are sent and received.
use mathlib.Core.Path.{subst}
use mit.Prelude.{
  ℕ, ◌+◌, ◌≡◌, ◌≤◌, ◌<◌, List, inl, inr, some, arith, length, refl, sym, ◌∙◌, ◌∷◌, true, Bool-cases,
  if◌then◌else◌,
}
use mit.Raft.Types.{LogEntry, Raft, leader, AppendEntriesArgs, AppendEntriesReply, Tick}
use mit.Raft.Gob.{Gob}
use mit.Raft.Append.{append_entries}
use mit.Raft.Append.Reply.{append_entries_refuses, append_entries_agrees}
use mit.Raft.Replicate.{Message, prepare}
use mit.Raft.Replicate.Commit.{prepare_sends_log}
use mit.Raft.Steps.{append}
use mit.Raft.Steps.Monotone.{Quiet-Keeps}
use mit.Raft.Steps.Role.{Quiet-KeepsRole}
use mit.Raft.Cluster.{Has, update, count}
use mit.Raft.Cluster.Updates.{update_self}
use mit.Raft.Network.Life.{Life, KeepsRole-Life}
use mit.Raft.Network.Matching.{Safe, prepared-Sent}
use mit.Raft.Consensus.{System}
use mit.Raft.Consensus.Reigns.{Sound}
use mit.Raft.Consensus.Commits.{Safely, Safely-more, append_entries-Told}
use mit.Raft.Consensus.Steady.{quietly}
use mit.Raft.Consensus.Accepting.{reach, received-same}
use mit.Raft.Consensus.Accepting.Receiving.{receiving, received-Upto}
use mit.Raft.Consensus.Runs.{Request, Request-more, Held, commits_on, same_reigns}

module _ {C : Type 0} (gob : Gob C) (n : ℕ) where
  module _ {s : System C} (safe : Safe gob n s.network) (held : Held gob n s) where
    abbrev peer : ℕ → Raft C
    peer = s.network.cluster.peer

    pub post-Held :
        (i : ℕ) (spare : List (LogEntry C)) (index term commit to : ℕ) (args : AppendEntriesArgs C)
        (next : ℕ)
        → index < (peer i).last_included_index + length (peer i).log
        → (peer i).state ≡ leader
        → (peer i).current_term ≡ term
        → commit ≤ index
        → commit ≤ (peer i).commit_index
        → prepare spare index term commit to (peer i) ≡ some (Message.append args next)
        → Held gob n (record s { network = record s.network { pool = args ∷ s.network.pool } })
    post-Held i spare index term commit to args next reaches l e ci cc' h =
        let (above, at_next, prev, at, lc, tm, count, same) =
          prepare_sends_log spare index term commit to next (peer i) args h in
        record {
          reigns = held.reigns;
          acks = held.acks;
          quorate = held.quorate;
          requests = λ args' m. elim m [
            | inl a ↦ subst (Request gob n held.reigns held.acks) a (record {
              reign = record { owner = i; term = (peer i).current_term; log = (peer i).log };
              inside = held.quorate.leads i l;
              term = e ∙ sym tm;
              sent =
                  prepared-Sent spare index term commit to next (peer i) args (peer i).log reaches
                    (safe.logs.known i).base (λ k x q. q) h;
              commit =
                  Safely-more n held.reigns held.reigns held.acks held.acks (peer i).current_term
                    args.term (peer i).log (peer i).log (peer i).commit_index args.leader_commit
                    (λ r h'. h') (λ a h'. h') (omega (arith, e, tm)) (λ k x q. q)
                    (omega (arith, lc)) (held.commits i);
              covers = omega (arith, lc, count, prev);
            })
            | inr old ↦ held.requests args' old
          ];
          replies = held.replies;
          commits = held.commits;
        }

    received_commit :
        (i : ℕ) (args : AppendEntriesArgs C) (t u : Tick) (rf : Raft C) (reply : AppendEntriesReply)
        (req : Request gob n held.reigns held.acks args)
        → rf.last_included_index ≡ 0
        → append_entries gob args t u (peer i) ≡ some (rf, reply)
        → reply.success ≡ true
        → Sound held.reigns args.term rf.log
        → Safely n held.reigns held.acks rf.current_term rf.log rf.commit_index
    received_commit i args t u rf reply req base' h ok sound =
        let (le, tm, prev, stored) = append_entries_agrees gob args t u (peer i) rf reply h ok in
        let q = held.quorate in
        let b = s.network.cluster.ballots in
        elim (append_entries-Told gob n args t u (peer i) rf reply h) [
          | inl same ↦ elim (held.commits i) [
            | inl z ↦ inl (same ∙ z)
            | inr c ↦ inr (record {
              by = c.by;
              term = omega (arith, c.term, le, tm);
              below = omega (arith, same, c.below);
              same =
                  received-Upto gob n peer b s.calls held.reigns held.acks q
                    safe.elections.votes.cast i args t u rf reply req.reign req.inside req.term
                    req.sent (safe.logs.known i).base h ok c.by c.term rf.commit_index
                    (omega (arith, same, c.below))
                    (λ j e lj at. c.same j e (omega (arith, same)) at);
            })
          ]
          | inr told ↦ elim req.commit [
            | inl z ↦ inl (omega arith)
            | inr c ↦ inr (record {
              by = c.by;
              term = omega (arith, c.term, tm);
              below = omega (arith, c.below);
              same = λ j e lj at.
                  received-same gob n peer b s.calls held.reigns held.acks q
                    safe.elections.votes.cast i args t u rf reply req.reign req.inside req.term
                    req.sent (safe.logs.known i).base h ok base' sound j e
                    (omega (arith, req.covers)) (c.same j e (omega arith) at);
            })
          ]
        ]

    -- A peer that replies success has what it acknowledges.
    accepted-Held :
        (i : ℕ) (args : AppendEntriesArgs C) (t u : Tick) (rf : Raft C) (reply : AppendEntriesReply)
        → Has args s.network.pool
        → rf.last_included_index ≡ 0
        → append_entries gob args t u (peer i) ≡ some (rf, reply)
        → reply.success ≡ true
        → Life gob n (peer i) rf
        → (rf.state ≡ leader → (peer i).state ≡ leader)
        → Held gob n (record s {
          network = record s.network {
            cluster = record s.network.cluster { peer = update peer i rf };
          };
          replies = record { voter = i; term = args.term; index = reach args } ∷ s.replies;
        })
    accepted-Held i args t u rf reply hp base' h ok life lost =
        let req = held.requests args hp in
        let acks' = record { voter = i; term = args.term; index = reach args } ∷ held.acks in
        let (le, tm, prev, stored) = append_entries_agrees gob args t u (peer i) rf reply h ok in
        let quorate =
          receiving gob n peer s.network.cluster.ballots s.calls held.reigns held.acks held.quorate
            safe.elections.votes.cast i args t u rf reply req.reign req.inside req.term req.sent
            (safe.logs.known i).base h ok base' life lost in
        let sound : Sound held.reigns args.term rf.log =
          subst (λ k. Sound held.reigns k rf.log) tm
            (subst (λ r. Sound held.reigns r.current_term r.log) (update_self peer i rf)
              (quorate.logs i)) in
        record {
          reigns = held.reigns;
          acks = acks';
          quorate = quorate;
          requests = λ args' m.
              Request-more gob n held.reigns held.reigns held.acks acks' args' (λ r h'. h')
                (λ a h'. inr h') (held.requests args' m);
          replies = λ a m. elim m [ inl e ↦ inl e | inr old ↦ inr (held.replies a old) ];
          commits =
              commits_on gob n safe held i rf held.reigns acks' (λ r h'. h') (λ a h'. inr h')
                (Safely-more n held.reigns held.reigns held.acks acks' rf.current_term
                  rf.current_term rf.log rf.log rf.commit_index rf.commit_index (λ r h'. h')
                  (λ a h'. inr h') (omega arith) (λ k x at. at) (omega arith)
                  (received_commit i args t u rf reply req base' h ok sound));
        }

    pub receive-Held :
        (i : ℕ) (args : AppendEntriesArgs C) (t u : Tick) (rf : Raft C) (reply : AppendEntriesReply)
        → Has args s.network.pool
        → rf.last_included_index ≡ 0
        → append_entries gob args t u (peer i) ≡ some (rf, reply)
        → Held gob n (record s {
          network = record s.network {
            cluster = record s.network.cluster { peer = update peer i rf };
          };
          replies =
              if reply.success
              then record {
                voter = i;
                term = args.term;
                index = args.prev_log_index + length args.entries;
              }
                ∷ s.replies
              else s.replies;
        })
    receive-Held i args t u rf reply hp base' h =
        let q = append args t u reply h in
        let role = Quiet-KeepsRole gob q in
        let life = KeepsRole-Life gob n (peer i) rf (Quiet-Keeps gob q).0 role in
        let lost : rf.state ≡ leader → (peer i).state ≡ leader =
          λ lead. elim role [ inl f ↦ cc | inr (r, tm) ↦ sym r ∙ lead ] in
        elim (Bool-cases reply.success) [
          | inl yes' ↦ rw yes' (accepted-Held i args t u rf reply hp base' h yes' life lost)
          | inr no' ↦
              let (same, commit) = append_entries_refuses gob args t u (peer i) rf reply h no' in
              rw no' (
                same_reigns gob n safe held (record s.network.cluster { peer = update peer i rf }) i
                  rf refl life.term same (omega (arith, commit))
                  (quietly gob n peer _ s.calls held.reigns held.acks held.quorate
                    safe.elections.votes.cast i rf life same lost))
        ]
