-- ===== src/Raft/Consensus/Runs.antt =====
-- The turns of a system keep the invariant.
pub mod Messages
pub mod Counting
pub mod Elections
use mathlib.Core.Path.{subst}
use mit.Prelude.{
  ℕ, ◌+◌, ◌≡◌, ◌≢◌, ◌≤◌, ◌<◌, ◌⊎◌, inl, inr, some, none, List, arith, length, get_elem?,
  get_elem?_le, get_elem?-append_left, ◌++◌, refl, sym, ap, ◌∙◌, [], ◌∷◌, true, false, Bool-cases,
  if◌then◌else◌,
}
use mit.Raft.Types.{
  LogEntry, Raft, candidate, leader, follower, RequestVoteArgs, RequestVoteReply, AppendEntriesArgs,
  AppendEntriesReply, Tick,
}
use mit.Raft.Gob.{Gob}
use mit.Raft.Vote.{start_election, handle_vote_reply, request_vote, become_leader, is_candidate}
use mit.Raft.Replicate.{Message, prepare, Round, Outcome, handle_success}
use mit.Raft.Replicate.Commit.{prepare_sends_log}
use mit.Raft.Append.{append_entries}
use mit.Raft.Append.Reply.{append_entries_refuses}
use mit.Raft.Steps.{
  Quiet, append, refusal, success, compact, snapshot_reply, snapshot_sent, command, issue, deliver,
  denied,
}
use mit.Raft.Steps.Monotone.{Quiet-Keeps, request_vote-Keeps}
use mit.Raft.Steps.Role.{Quiet-KeepsRole, request_vote-KeepsRole}
use mit.Raft.Service.Restart.{make-Remade, Remade}
use mit.Raft.Service.{append_command, make}
use mit.Raft.Cluster.{
  Ballot, Has, update, Cluster, Move, quiet, grant, elect, tally_vote, restart, IsFresh,
}
use mit.Raft.Cluster.Invariant.{Inv, Move-Inv}
use mit.Raft.Cluster.Updates.{update_self, update-all}
use mit.Raft.Network.{Network, LeavesLog, IsStill, still, send, receive, submit}
use mit.Raft.Network.Prefix.{IsPrefix}
use mit.Raft.Network.Life.{
  Life, KeepsRole-Life, Quiet-SameLog, start_election-Life, handle_vote_reply-Life,
  request_vote-SameLog,
}
use mit.Raft.Network.History.{Sent, Won, leader-Won}
use mit.Raft.Network.Matching.{Safe, Event-Safe, fresh-Safe, prepared-Sent}
use mit.Raft.Consensus.{Ack, System, IsPlain, IsUncounted, Turn, Course, start, later}
use mit.Raft.Consensus as Turns
use mit.Raft.Consensus.Reigns.{Reign, Sound}
use mit.Raft.Consensus.Quorum.{Quorate}
use mit.Raft.Consensus.Steady.{quietly, steady}
use mit.Raft.Consensus.Steady.Votes.{standing, voting, asking}
use mit.Raft.Consensus.Leading.{winning}
use mit.Raft.Consensus.Leading.Extending.{extending}
use mit.Raft.Consensus.Accepting.{reach}
use mit.Raft.Consensus.Accepting.Receiving.{receiving}
use mit.Raft.Consensus.Commits.{
  Safely, Safely-more, Quiet-SameCommit, request_vote-SameCommit, handle_vote_reply-SameCommit,
  start_election-SameCommit, make_commit, append_entries-Told,
}

module _ {C : Type 0} (gob : Gob C) (n : ℕ) where
  IsPlain-IsStill : {s u : Cluster C} (m : Move gob n s u) → IsPlain gob n m → IsStill gob n m
  IsPlain-IsStill (quiet i q) (l, c) = l
  IsPlain-IsStill (grant i args t lt h) p = tt
  IsPlain-IsStill (elect i t lt) p = tt
  IsPlain-IsStill (tally_vote i v t reply g hb cur fresh) p = tt
  IsPlain-IsStill (restart i t h) p = tt

  -- A turn is an event of the network, or changes nothing of it.
  pub Turn-Safe : {s u : System C} → Turn gob n s u → Safe gob n s.network → Safe gob n u.network
  Turn-Safe (Turns.other m p) safe = Event-Safe gob n (still m (IsPlain-IsStill m p)) safe
  Turn-Safe (Turns.ask i c h) safe = safe
  Turn-Safe (Turns.vote i args t lt hc h) safe =
      Event-Safe gob n (still (grant i args t lt h) tt) safe
  Turn-Safe (Turns.post i spare index term commit to reaches l e a b h) safe =
      Event-Safe gob n (send i spare index term commit to reaches h) safe
  Turn-Safe (Turns.receive i args t u lt hp h) safe =
      Event-Safe gob n (receive i args t u hp h) safe
  Turn-Safe (Turns.submit i c now l) safe = Event-Safe gob n (submit i c now l) safe
  Turn-Safe (Turns.agree i j index r r' o voters h count distinct below acked) safe =
      Event-Safe gob n (still (quiet i (success j index r r' o h)) tt) safe

  -- A request has entries of a leader of its term, and no commit index but one that it covers.
  pub record Request (rs : List (Reign C)) (acks : List Ack) (args : AppendEntriesArgs C)
      : Type 0 where
    pub reign : Reign C
    pub inside : Has reign rs
    pub term : reign.term ≡ args.term
    pub sent : Sent args reign.log
    pub commit : Safely n rs acks args.term reign.log args.leader_commit
    pub covers : args.leader_commit ≤ reach args

  Request-more :
      (rs rs' : List (Reign C)) (acks acks' : List Ack) (args : AppendEntriesArgs C)
      → ((r : Reign C) → Has r rs → Has r rs')
      → ((a : Ack) → Has a acks → Has a acks')
      → Request rs acks args
      → Request rs' acks' args
  Request-more rs rs' acks acks' args more more' q = record {
    reign = q.reign;
    inside = more q.reign q.inside;
    term = q.term;
    sent = q.sent;
    commit =
        Safely-more n rs rs' acks acks' args.term args.term q.reign.log q.reign.log
          args.leader_commit args.leader_commit more more' (omega arith) (λ k x at. at)
          (omega arith) q.commit;
    covers = q.covers;
  }

  pub record Held (s : System C) : Type 0 where
    pub reigns : List (Reign C)
    pub acks : List Ack
    pub quorate : Quorate n s.network.cluster.peer s.network.cluster.ballots s.calls reigns acks
    pub requests : (args : AppendEntriesArgs C) → Has args s.network.pool → Request reigns acks args
    pub replies : (a : Ack) → Has a s.replies → Has a acks
    pub commits :
        (i : ℕ)
        → Safely n reigns acks
            (s.network.cluster.peer i).current_term
            (s.network.cluster.peer i).log
            (s.network.cluster.peer i).commit_index

  module _ {s : System C} (safe : Safe gob n s.network) (held : Held s) where
    abbrev peer : ℕ → Raft C
    peer = s.network.cluster.peer

    abbrev Next : Cluster C → Type 0
    Next c = Held (record s { network = record s.network { cluster = c } })

    -- A peer whose log goes on and whose commit index does not rise.
    commits_on :
        (i : ℕ) (rf : Raft C) (rs' : List (Reign C)) (acks' : List Ack)
        → ((r : Reign C) → Has r held.reigns → Has r rs')
        → ((a : Ack) → Has a held.acks → Has a acks')
        → Safely n rs' acks' rf.current_term rf.log rf.commit_index
        → (j : ℕ)
        → Safely n rs' acks'
            (update peer i rf j).current_term
            (update peer i rf j).log
            (update peer i rf j).commit_index
    commits_on i rf rs' acks' more more' own =
        update-all peer peer i (λ j r r'. Safely n rs' acks' r.current_term r.log r.commit_index) rf
          own
          (λ j.
            Safely-more n held.reigns rs' held.acks acks' (peer j).current_term
              (peer j).current_term (peer j).log (peer j).log (peer j).commit_index
              (peer j).commit_index more more' (omega arith) (λ k x at. at) (omega arith)
              (held.commits j))

    own_commit :
        (i : ℕ) (rf : Raft C) (rs' : List (Reign C))
        → ((r : Reign C) → Has r held.reigns → Has r rs')
        → (peer i).current_term ≤ rf.current_term
        → IsPrefix (peer i).log rf.log
        → rf.commit_index ≤ (peer i).commit_index
        → Safely n rs' held.acks rf.current_term rf.log rf.commit_index
    own_commit i rf rs' more le p less =
        Safely-more n held.reigns rs' held.acks held.acks (peer i).current_term rf.current_term
          (peer i).log rf.log (peer i).commit_index rf.commit_index more (λ a h. h) le p less
          (held.commits i)

    -- No log of a leader is new, and the peer's log stays.
    same_reigns :
        (c : Cluster C) (i : ℕ) (rf : Raft C)
        → c.peer ≡ update peer i rf
        → (peer i).current_term ≤ rf.current_term
        → rf.log ≡ (peer i).log
        → rf.commit_index ≤ (peer i).commit_index
        → Quorate n (update peer i rf) c.ballots s.calls held.reigns held.acks
        → Next c
    same_reigns c i rf pe le same less q = record {
      reigns = held.reigns;
      acks = held.acks;
      quorate = rw pe q;
      requests = held.requests;
      replies = held.replies;
      commits = rw pe (
          commits_on i rf held.reigns held.acks (λ r h. h) (λ a h. h)
            (own_commit i rf held.reigns (λ r h. h) le (λ k x at. rw same at) less));
    }

    -- One is, and the peer's log goes on.
    new_reign :
        (c : Cluster C) (i : ℕ) (rf : Raft C) (r : Reign C)
        → c.peer ≡ update peer i rf
        → (peer i).current_term ≤ rf.current_term
        → IsPrefix (peer i).log rf.log
        → rf.commit_index ≤ (peer i).commit_index
        → Quorate n (update peer i rf) c.ballots s.calls (r ∷ held.reigns) held.acks
        → Next c
    new_reign c i rf r pe le p less q = record {
      reigns = r ∷ held.reigns;
      acks = held.acks;
      quorate = rw pe q;
      requests = λ args h.
          Request-more held.reigns (r ∷ held.reigns) held.acks held.acks args (λ r' h'. inr h')
            (λ a h'. h') (held.requests args h);
      replies = held.replies;
      commits = rw pe (
          commits_on i rf (r ∷ held.reigns) held.acks (λ r' h. inr h) (λ a h. h)
            (own_commit i rf (r ∷ held.reigns) (λ r' h. inr h) le p less));
    }
