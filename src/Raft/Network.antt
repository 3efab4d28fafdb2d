-- ===== src/Raft/Network.antt =====
-- The peers of raft.go with the AppendEntries requests on their way between them, for runs without
-- snapshots. A request stays in the pool, so it may be lost, delayed, doubled and overtaken. It is built
-- and sent by any peer at any time, also by one that has lost its leadership since the tests before, but
-- not by one whose log has become too short in between for the index of the broadcast: such a peer may
-- send what its array still has behind the log (raft.go:905). Its entries are taken to be encoded as they
-- are when it is built. Of Start it is assumed that the section that finds the peer to be the leader and
-- the one that appends the command run with none between them. For elections, the assumptions are those
-- of Cluster.
pub mod Prefix
pub mod Life
pub mod History
pub mod Followers
pub mod Leaders
pub mod Matching
use mit.Prelude.{ℕ, ◌≡◌, ◌+◌, ◌<◌, some, List, [], ◌∷◌, length}
use mit.Raft.Types.{leader, LogEntry, Raft, Tick, AppendEntriesArgs, AppendEntriesReply}
use mit.Raft.Gob.{Gob}
use mit.Raft.Append.{append_entries}
use mit.Raft.Replicate.{Message, prepare}
use mit.Raft.Service.{append_command}
use mit.Raft.Steps.{
  Quiet, append, refusal, success, compact, snapshot_reply, snapshot_sent, command, issue, deliver,
  denied,
}
use mit.Raft.Cluster.{Has, update, Cluster, Move, quiet, grant, elect, tally_vote, restart, IsFresh}

pub record Network (C : Type 0) : Type 0 where
  pub cluster : Cluster C
  pub pool : List (AppendEntriesArgs C)

module _ {C : Type 0} (gob : Gob C) (n : ℕ) where
  -- The sections that do not write the log.
  abbrev pub LeavesLog : {rf rf' : Raft C} → Quiet gob rf rf' → Type 0
  LeavesLog (append args t u reply h) = ⊥
  LeavesLog (compact index term kvs h) = ⊥
  LeavesLog (command c now e) = ⊥
  LeavesLog _ = Unit

  abbrev pub IsStill : {s u : Cluster C} → Move gob n s u → Type 0
  IsStill (quiet i q) = LeavesLog q
  IsStill _ = Unit

  pub data Event (s : Network C) : Network C → Type 0 where
    still :
        {c : Cluster C} (m : Move gob n s.cluster c)
        → IsStill m
        → Event s (record s { cluster = c })
    send :
        (i : ℕ) (spare : List (LogEntry C)) (index term commit to : ℕ) {args : AppendEntriesArgs C}
        {next : ℕ}
        → index < (s.cluster.peer i).last_included_index + length (s.cluster.peer i).log
        → prepare spare index term commit to (s.cluster.peer i) ≡ some (Message.append args next)
        → Event s (record s { pool = args ∷ s.pool })
    receive :
        (i : ℕ) (args : AppendEntriesArgs C) (t u : Tick) {rf : Raft C} {reply : AppendEntriesReply}
        → Has args s.pool
        → append_entries gob args t u (s.cluster.peer i) ≡ some (rf, reply)
        → Event s (record s { cluster = record s.cluster { peer = update s.cluster.peer i rf } })
    submit :
        (i : ℕ) (c : C) (now : ℕ)
        → (s.cluster.peer i).state ≡ leader
        → Event s (record s {
          cluster = record s.cluster {
            peer = update s.cluster.peer i (append_command gob c now (s.cluster.peer i)).0;
          };
        })

  pub data Trace (s : Network C) : Network C → Type 0 where
    start : Trace s s
    later : {t u : Network C} → Trace s t → Event t u → Trace s u
