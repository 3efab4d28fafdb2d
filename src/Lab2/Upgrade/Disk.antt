-- ===== src/Lab2/Upgrade/Disk.antt =====
-- What the handlers of both stages leave on disk.
use mit.Prelude.{ℕ, ◌≡◌, some, arith}
use mit.Raft.Types.{Tick, Raft, RequestVoteArgs, RequestVoteReply, AppendEntriesReply}
use mit.Raft.Gob.{Gob}
use mit.Raft.Steps.Monotone.{IsSaved, Keeps}
use mit.Lab2.Peer
use mit.Lab2.Election
use mit.Lab2.Append
use mit.Lab2.Upgrade.{Alike}

module _ {C : Type 0} (gob : Peer.StateGob C) where
  -- As IsSaved, of the earlier stage.
  abbrev IsOldSaved : Peer.Raft C → Type 0
  IsOldSaved rf = rf.persister.raftstate ≡ gob.encode_state rf.current_term rf.vote_for rf.log

  pub request_vote-IsOldSaved :
      (args : RequestVoteArgs) (t : Tick) (rf rf' : Peer.Raft C) (reply : RequestVoteReply)
      → Election.request_vote gob args t rf ≡ some (rf', reply)
      → IsOldSaved rf
      → IsOldSaved rf'
  unfolding Election.request_vote Election.consider_vote Election.grant_vote Election.adopt_term
  request_vote-IsOldSaved args t rf rf' reply h s = ground arith

  pub append_entries-IsOldSaved :
      (args : Peer.AppendEntriesArgs C) (t u : Tick) (rf rf' : Peer.Raft C)
      (reply : AppendEntriesReply)
      → Append.append_entries gob args t u rf ≡ some (rf', reply)
      → IsOldSaved rf
      → IsOldSaved rf'
  unfolding Append.append_entries Append.check_entries Append.accept_entries Append.finish_append
      Append.adopt_leader_term
  append_entries-IsOldSaved args t u rf rf' reply h s = ground arith

  pub start_election-IsOldSaved :
      (t : Tick) (rf : Peer.Raft C) → IsOldSaved (Election.start_election gob t rf)
  unfolding Election.start_election
  start_election-IsOldSaved t rf = ground arith

  pub handle_vote_reply-IsOldSaved :
      (reply : RequestVoteReply) (n : ℕ) (rf : Peer.Raft C)
      → IsOldSaved rf
      → IsOldSaved (Election.handle_vote_reply gob reply n rf).0
  unfolding Election.handle_vote_reply
  handle_vote_reply-IsOldSaved reply n rf s = ground arith

module _ {C : Type 0} (gob : Gob C) (old_gob : Peer.StateGob C) where
  -- Alike, and each with its term, vote and log on disk.
  pub record Twins (old : Peer.Raft C) (rf : Raft C) : Type 0 where
    pub alike : Alike old rf
    pub saved : IsSaved gob rf
    pub old_saved : IsOldSaved old_gob old

  pub Keeps-IsSaved : (rf rf' : Raft C) → Keeps gob rf rf' → IsSaved gob rf → IsSaved gob rf'
  Keeps-IsSaved rf rf' k h = ground (arith, k.saved)
