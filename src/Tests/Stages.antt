-- ===== src/Tests/Stages.antt =====
-- The theorems on the earlier stages, at a concrete peer, server and clerk.
use mit.Prelude.{
  ℕ, ◌+◌, ◌≡◌, refl, ◌<◌, ltb, min, if◌then◌else◌, true, false, Option, none, some, List, [], ◌∷◌,
  arith, length, suc, zero, set, map, ◌>>=◌,
}
use mit.Raft.Types.{Bytes, Raft, RequestVoteReply, AppendEntriesReply, apply_cond}
use mit.Raft.Types
use mit.Raft.Vote.{request_vote, start_election, handle_vote_reply}
use mit.Raft.Append.{
  append_entries, check_entries, is_consistent, accept_entries, store_entries, finish_append,
  adopt_leader_term,
}
use mit.Raft.Local.{switch_to, term_at}
use mit.Lab2.Peer
use mit.Lab2.Election
use mit.Lab2.Append
use mit.Lab2.Bounds.{commit_within_request}
use mit.Lab2.Upgrade.{Alike, forget}
use mit.Lab2.Upgrade.Election.{request_vote-Alike, election-Alike}
use mit.Lab2.Upgrade.Append.{forget_args}
use mit.Raft.Vote.{vote_args}
use mit.Raft.Steps.Monotone.{IsSaved}
use mit.Lab2.Upgrade.Disk.{Twins}
use mit.Lab2.Upgrade.Accept.{SameReply}
use mit.Lab2.Upgrade.Handler.{append_entries-Alike}
use mit.Raft.Replicate.{Message, retry, snapshot_args, prepare, handle_refusal}
use mit.Raft.Replicate.Unmatched.{IsUnmatched, unmatched_term_sends_snapshot}
use mit.Lab2.Replicate
use mit.Lab2.Upgrade.Replicate.{prepare_alike}
use mit.Tests.Codec.{
  Codec, nat_codec, write_option, read_option, read_option-write, read_nat, write_list, read_list,
  read_list-write, to_vote, of_vote, to_vote-of_vote, nat_gob,
}
use mit.Tests.Peers.{
  entry, placeholder, leading, tick, peer, running, vote_request, append_request, appended, success,
}

abbrev read_entry : Bytes → Option (Peer.LogEntry ℕ × Bytes)
read_entry bs = do
  (c, bs₁) ← read_option nat_codec bs
  (t, bs₂) ← read_nat bs₁
  some (record { command = c; term = t }, bs₂)

abbrev entry_codec : Codec (Peer.LogEntry ℕ)
entry_codec = record {
  write = λ e bs. write_option nat_codec e.command (e.term ∷ bs);
  read = read_entry;
  read-write = λ e bs. rw (read_option-write nat_codec e.command (e.term ∷ bs), ◌>>=◌) refl;
}

abbrev read_state : Bytes → Option (ℕ × Option ℕ × List (Peer.LogEntry ℕ))
read_state (t ∷ v ∷ n ∷ bs) = read_list entry_codec n bs >>= λ (l, rest). some (t, to_vote v, l)
read_state _ = none

abbrev state_gob : Peer.StateGob ℕ
state_gob = record {
  encode_state = λ t v l. t ∷ of_vote v ∷ length l ∷ write_list entry_codec l [];
  decode_state = read_state;
  decode_state-encode_state =
      λ t v l. rw (read_list-write entry_codec l [], ◌>>=◌) (rw (to_vote-of_vote v) refl);
}

-- The peers of the later stage as they were in the earlier one.
abbrev earlier : Raft ℕ → Peer.Raft ℕ
earlier rf = record {
  peers = rf.peers;
  me = rf.me;
  persister = record {
    raftstate = state_gob.encode_state rf.current_term rf.vote_for (map forget rf.log);
    snapshot = [];
  };
  apply_ch = [];
  signals = [];
  state = rf.state;
  leader_id = rf.leader_id;
  election_timeout = rf.election_timeout;
  heartbeat_period = rf.heartbeat_period;
  latest_issue_time = rf.latest_issue_time;
  latest_heard_time = rf.latest_heard_time;
  current_term = rf.current_term;
  vote_for = rf.vote_for;
  log = map forget rf.log;
  commit_index = rf.commit_index;
  last_applied = rf.last_applied;
  next_index = rf.next_index;
  match_index = rf.match_index;
}

earlier-Alike : (rf : Raft ℕ) → rf.last_included_index ≡ 0 → Alike (earlier rf) rf
earlier-Alike rf z = record {
  base = z;
  log = refl;
  peers = refl;
  me = refl;
  state = refl;
  leader_id = refl;
  election_timeout = refl;
  heartbeat_period = refl;
  latest_issue_time = refl;
  latest_heard_time = refl;
  current_term = refl;
  vote_for = refl;
  commit_index = omega arith;
  last_applied = refl;
  next_index = refl;
  match_index = refl;
}

earlier-Twins :
    (rf : Raft ℕ)
    → rf.last_included_index ≡ 0
    → IsSaved nat_gob rf
    → Twins nat_gob state_gob (earlier rf) rf
earlier-Twins rf z s = record { alike = earlier-Alike rf z; saved = s; old_saved = refl }

abbrev voted : Raft ℕ
voted = record peer {
  current_term = 3;
  vote_for = some 1;
  election_timeout = 650;
  latest_heard_time = 1000;
  persister = record { raftstate = nat_gob.encode_state 3 (some 1) peer.log; snapshot = [] };
}

request_vote-Alike_example :
    (old' : Peer.Raft ℕ) × (Election.request_vote state_gob vote_request tick (earlier peer)
      ≡ some (old', record { term = 3; vote_granted = true }))
    × Twins nat_gob state_gob old' voted
unfolding request_vote
request_vote-Alike_example =
    request_vote-Alike nat_gob state_gob vote_request tick (earlier peer) peer voted
      (record { term = 3; vote_granted = true }) (earlier-Twins peer refl refl) refl

abbrev granted : RequestVoteReply
granted = record { term = 2; vote_granted = true }

abbrev standing : Raft ℕ
standing = record running {
  persister = record { raftstate = nat_gob.encode_state 2 (some 0) running.log; snapshot = [] };
}

election-Alike_example :
    let (old', m, o) = Election.handle_vote_reply state_gob granted 1 (earlier standing) in
    let (rf', n, b) = handle_vote_reply nat_gob granted 1 standing in
    Twins nat_gob state_gob
      (Election.start_election state_gob tick (earlier standing))
      (start_election nat_gob tick standing)
    × (Election.vote_args (Election.start_election state_gob tick (earlier standing))
        ≡ vote_args (start_election nat_gob tick standing))
    × Twins nat_gob state_gob old' rf'
    × (m ≡ n)
    × (o ≡ b)
election-Alike_example =
    election-Alike nat_gob state_gob tick granted 1 (earlier standing) standing
      (earlier-Twins standing refl refl) (omega arith)

append_entries-Alike_example :
    (old' : Peer.Raft ℕ) × (r' : AppendEntriesReply) × (Append.append_entries state_gob
        (forget_args append_request)
        tick
        tick
        (earlier peer)
      ≡ some (old', r'))
    × Twins nat_gob state_gob old' appended
    × SameReply 3 r' success
unfolding append_entries check_entries is_consistent accept_entries store_entries switch_to
    finish_append adopt_leader_term
append_entries-Alike_example =
    append_entries-Alike nat_gob state_gob append_request tick tick (earlier peer) peer appended
      success (earlier-Twins peer refl refl) (omega arith) refl

-- The follower of the earlier stage after the same request.
abbrev appended_earlier : Peer.Raft ℕ
appended_earlier = record (earlier appended) {
  persister = record {
    raftstate = state_gob.encode_state 3 none (map forget appended.log);
    snapshot = [];
  };
  signals = apply_cond ∷ [];
}

commit_within_request_example :
    (1 + 2 < length appended_earlier.log)
    × (appended_earlier.commit_index ≡ (if ltb 1 2 then min 2 (1 + 2) else 1))
unfolding Append.append_entries
commit_within_request_example =
    commit_within_request state_gob (forget_args append_request) tick tick (earlier peer)
      appended_earlier success refl refl

-- A leader with entries of the terms 0, 1 and 4, and a refusal that names term 3.
abbrev ahead : Raft ℕ
ahead = record leading { current_term = 4; log = placeholder ∷ entry 7 1 1 ∷ entry 8 4 2 ∷ [] }

abbrev no_such_term : AppendEntriesReply
no_such_term = record { term = 4; conflict_term = 3; conflict_first_index = 2; success = false }

ahead-IsUnmatched : IsUnmatched ahead.log 3 3
ahead-IsUnmatched zero e lt q = ground arith
ahead-IsUnmatched (suc zero) e lt q = ground arith
ahead-IsUnmatched (suc (suc zero)) e lt q = ground arith
ahead-IsUnmatched (suc (suc (suc j))) e lt q = absurd (omega arith)

abbrev refused_request : Types.AppendEntriesArgs ℕ
refused_request = record append_request { term = 4 }

unmatched_term_sends_snapshot_example :
    let rf' : Raft ℕ = record ahead { next_index = set ahead.next_index 1 0 } in
    (handle_refusal nat_gob 1 refused_request 3 no_such_term ahead ≡ some (rf', retry))
    × (prepare [] 2 4 1 1 rf' ≡ some (Message.install (snapshot_args rf')))
unfolding term_at
unmatched_term_sends_snapshot_example =
    unmatched_term_sends_snapshot nat_gob [] 1 3 4 2 4 1 refused_request no_such_term ahead
      (omega arith) (omega arith) (λ e. omega arith) (omega arith) refl (omega arith)
      ahead-IsUnmatched

-- What the leader sends to peer 1 from index 2 on.
abbrev last_entry : Types.AppendEntriesArgs ℕ
last_entry = record {
  term = 4;
  leader_id = 0;
  prev_log_index = 1;
  prev_log_term = 1;
  entries = entry 8 4 2 ∷ [];
  leader_commit = 1;
}

abbrev one_behind : Raft ℕ
one_behind = record ahead { next_index = 3 ∷ 2 ∷ 3 ∷ [] }

prepare_alike_example :
    Replicate.prepare [] 2 4 1 1 (earlier one_behind) ≡ some (forget_args last_entry, 2)
unfolding prepare
prepare_alike_example =
    prepare_alike (earlier one_behind) one_behind (earlier-Alike one_behind refl) [] 2 4 1 1 2
      last_entry refl
