-- ===== src/Raft/Consensus.antt =====
-- The peers of raft.go with all messages of elections and replication on their way: the requests for votes,
-- the AppendEntries requests of Network, and the replies of success to these. Besides the assumptions of
-- Cluster and Network: a candidate builds its requests for votes while it is one, a peer builds an
-- AppendEntries request in the section that has found it to lead in the term of the broadcast, the index
-- and the commit index of a broadcast are read together, and the section that compares the term of a reply of
-- success and the one that counts it run with none between them.
pub mod Reigns
pub mod Quorum
pub mod Growth
pub mod Steady
pub mod Leading
pub mod Commits
pub mod Accepting
pub mod Runs
pub mod Reachable
pub mod Agreement
pub mod Applied
use mit.Prelude.{ℕ, ◌+◌, ◌≡◌, ◌⊎◌, ◌≤◌, ◌<◌, some, List, [], ◌∷◌, All, length, if◌then◌else◌}
use mit.Raft.Types.{
  candidate, leader, LogEntry, Raft, Tick, RequestVoteArgs, RequestVoteReply, AppendEntriesArgs,
  AppendEntriesReply,
}
use mit.Raft.Gob.{Gob}
use mit.Raft.Vote.{request_vote, vote_args}
use mit.Raft.Append.{append_entries}
use mit.Raft.Replicate.{Message, prepare, Round, Outcome, handle_success}
use mit.Raft.Service.{append_command}
use mit.Raft.Steps.{Quiet, success}
use mit.Raft.Cluster.{
  Has, update, count, Cluster, Move, quiet, grant, elect, tally_vote, restart, IsFresh,
}
use mit.Raft.Network.{Network, LeavesLog}

-- A reply of success: `voter` has the log of the leader of `term` up to `index`.
pub record Ack : Type 0 where
  pub voter : ℕ
  pub term : ℕ
  pub index : ℕ

pub record System (C : Type 0) : Type 0 where
  pub network : Network C
  pub calls : List RequestVoteArgs
  pub replies : List Ack

abbrev pub HasReply : ℕ → ℕ → ℕ → List Ack → Type 0
HasReply v term index as' =
    (a : Ack) × Has a as' × (a.voter ≡ v) × (a.term ≡ term) × (index ≤ a.index)

module _ {C : Type 0} (gob : Gob C) (n : ℕ) where
  -- The steps that count no reply of success.
  abbrev pub IsUncounted : {rf rf' : Raft C} → Quiet gob rf rf' → Type 0
  IsUncounted (success j index r r' o h) = ⊥
  IsUncounted _ = Unit

  -- The moves that have no turn of their own below.
  abbrev pub IsPlain : {s u : Cluster C} → Move gob n s u → Type 0
  IsPlain (quiet i q) = LeavesLog gob n q × IsUncounted q
  IsPlain (grant i args t lt h) = ⊥
  IsPlain _ = Unit

  pub data Turn (s : System C) : System C → Type 0 where
    other :
        {c : Cluster C} (m : Move gob n s.network.cluster c)
        → IsPlain m
        → Turn s (record s { network = record s.network { cluster = c } })
    ask :
        (i : ℕ) {args : RequestVoteArgs}
        → (s.network.cluster.peer i).state ≡ candidate
        → vote_args (s.network.cluster.peer i) ≡ some args
        → Turn s (record s { calls = args ∷ s.calls })
    vote :
        (i : ℕ) (args : RequestVoteArgs) (t : Tick) {rf : Raft C} {reply : RequestVoteReply}
        → i < n
        → Has args s.calls
        → request_vote gob args t (s.network.cluster.peer i) ≡ some (rf, reply)
        → Turn s (record s {
          network = record s.network {
            cluster = record s.network.cluster {
              peer = update s.network.cluster.peer i rf;
              ballots =
                  if reply.vote_granted
                  then record { voter = i; candidate = args.candidate_id; term = args.term }
                    ∷ s.network.cluster.ballots
                  else s.network.cluster.ballots;
            };
          };
        })
    -- `index` and `commit` are what the leader had when its broadcast began, so its log reaches that far.
    post :
        (i : ℕ) (spare : List (LogEntry C)) (index term commit to : ℕ) {args : AppendEntriesArgs C}
        {next : ℕ}
        → index
          < (s.network.cluster.peer i).last_included_index + length (s.network.cluster.peer i).log
        → (s.network.cluster.peer i).state ≡ leader
        → (s.network.cluster.peer i).current_term ≡ term
        → commit ≤ index
        → commit ≤ (s.network.cluster.peer i).commit_index
        → prepare spare index term commit to (s.network.cluster.peer i)
          ≡ some (Message.append args next)
        → Turn s (record s { network = record s.network { pool = args ∷ s.network.pool } })
    receive :
        (i : ℕ) (args : AppendEntriesArgs C) (t u : Tick) {rf : Raft C} {reply : AppendEntriesReply}
        → i < n
        → Has args s.network.pool
        → append_entries gob args t u (s.network.cluster.peer i) ≡ some (rf, reply)
        → Turn s (record s {
          network = record s.network {
            cluster = record s.network.cluster { peer = update s.network.cluster.peer i rf };
          };
          replies =
              if reply.success
              then record {
                voter = i;
                term = args.term;
                index = args.prev_log_index + length args.entries;
              }
                ∷ s.replies
              else s.replies;
        })
    submit :
        (i : ℕ) (c : C) (now : ℕ)
        → (s.network.cluster.peer i).state ≡ leader
        → Turn s (record s {
          network = record s.network {
            cluster = record s.network.cluster {
              peer =
                  update s.network.cluster.peer i
                    (append_command gob c now (s.network.cluster.peer i)).0;
            };
          };
        })
    -- nReplica counts the leader and peers that have replied to it in its term for `index`, each once.
    agree :
        (i j index : ℕ) (r r' : Round) (o : Outcome) (voters : List ℕ) {rf : Raft C}
        → handle_success j index r (s.network.cluster.peer i) ≡ some (rf, r', o)
        → r.n_replica + 1 ≡ length voters
        → ((v : ℕ) → count v voters ≤ 1)
        → All (λ v. v < n) voters
        → ((v : ℕ)
            → 0 < count v voters
            → (v ≡ i) ⊎ HasReply v (s.network.cluster.peer i).current_term index s.replies)
        → Turn s (record s {
          network = record s.network {
            cluster = record s.network.cluster { peer = update s.network.cluster.peer i rf };
          };
        })

  pub data Course (s : System C) : System C → Type 0 where
    start : Course s s
    later : {t u : System C} → Course s t → Turn t u → Course s u
