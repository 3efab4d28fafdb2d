-- ===== src/Raft/Network/Life.antt =====
-- How role, term and log of a peer change in the sections that do not write the log.
use mit.Prelude.{ℕ, ◌≡◌, ◌<◌, ◌≤◌, ◌⊎◌, inl, inr, some, arith, refl, length}
use mit.Raft.Types.{Raft, follower, candidate, leader, Tick, RequestVoteArgs, RequestVoteReply}
use mit.Raft.Gob.{Gob}
use mit.Raft.Vote.{request_vote, start_election, handle_vote_reply}
use mit.Raft.Replicate.{handle_refusal, handle_success}
use mit.Raft.Snapshot.{handle_snapshot_reply, note_snapshot_sent}
use mit.Raft.Service.{broadcast_heartbeat, apply_section}
use mit.Raft.Service.Restart.{IsDurable, make-Remade}
use mit.Raft.Steps.{
  Quiet, append, refusal, success, compact, snapshot_reply, snapshot_sent, command, issue, deliver,
  denied,
}
use mit.Raft.Steps.Monotone.{Keeps, Quiet-Keeps, request_vote-Keeps}
use mit.Raft.Steps.Role.{KeepsRole, Quiet-KeepsRole, request_vote-KeepsRole}
use mit.Raft.Cluster.{Ballot, Has, update, Cluster, Move, quiet, grant, elect, tally_vote, restart}
use mit.Raft.Network.{LeavesLog, IsStill}

module _ {C : Type 0} (gob : Gob C) (n : ℕ) where
  -- A peer that does not follow has begun an election in a new term, is what it was in its term, or
  -- has won the election of its term.
  abbrev NextRole : Raft C → Raft C → Type 0
  NextRole rf rf' =
      (rf'.state ≡ follower)
      ⊎ ((rf'.state ≡ candidate) × (rf.current_term < rf'.current_term))
      ⊎ ((rf'.state ≡ rf.state) × (rf'.current_term ≡ rf.current_term))
      ⊎ ((rf'.state ≡ leader) × (rf.state ≡ candidate) × (rf'.current_term ≡ rf.current_term))

  pub record Life (rf rf' : Raft C) : Type 0 where
    pub term : rf.current_term ≤ rf'.current_term
    pub role : NextRole rf rf'

  pub KeepsRole-Life : (rf rf' : Raft C) → Keeps gob rf rf' → KeepsRole gob rf rf' → Life rf rf'
  KeepsRole-Life rf rf' k r = record { term = k.term; role = ground arith }

  abbrev pub SameLog : Raft C → Raft C → Type 0
  SameLog rf rf' = (rf'.log ≡ rf.log) × (rf.last_included_index ≡ 0 → rf'.last_included_index ≡ 0)

  pub Quiet-SameLog : {rf rf' : Raft C} (q : Quiet gob rf rf') → LeavesLog gob n q → SameLog rf rf'
  unfolding handle_refusal handle_success handle_snapshot_reply note_snapshot_sent
      broadcast_heartbeat apply_section handle_vote_reply
  Quiet-SameLog (append args t u reply h) l = elim l [ ]
  Quiet-SameLog (compact index term kvs h) l = elim l [ ]
  Quiet-SameLog (command c now e) l = elim l [ ]
  Quiet-SameLog (refusal i args m reply o s h) l = (ground arith, λ z. ground arith)
  Quiet-SameLog (success i index r r' o h) l = (ground arith, λ z. ground arith)
  Quiet-SameLog (snapshot_reply reply e) l = (ground arith, λ z. ground arith)
  Quiet-SameLog (snapshot_sent i args e) l = (ground arith, λ z. ground arith)
  Quiet-SameLog (issue now e) l = (ground arith, λ z. ground arith)
  Quiet-SameLog (deliver i i' h) l = (ground arith, λ z. ground arith)
  Quiet-SameLog (denied reply m d e) l = (ground arith, λ z. ground arith)

  pub request_vote-SameLog :
      (args : RequestVoteArgs) (t : Tick) (rf rf' : Raft C) (reply : RequestVoteReply)
      → request_vote gob args t rf ≡ some (rf', reply)
      → SameLog rf rf'
  unfolding request_vote
  request_vote-SameLog args t rf rf' reply h = (ground arith, λ z. ground arith)

  pub start_election-Life :
      (t : Tick) (rf : Raft C)
      → Life rf (start_election gob t rf) × SameLog rf (start_election gob t rf)
  unfolding start_election
  start_election-Life t rf =
      (record { term = omega arith; role = ground arith }, (ground arith, λ z. ground arith))

  pub handle_vote_reply-Life :
      (reply : RequestVoteReply) (m : ℕ) (rf : Raft C)
      → Life rf (handle_vote_reply gob reply m rf).0
        × SameLog rf (handle_vote_reply gob reply m rf).0
  unfolding handle_vote_reply
  handle_vote_reply-Life reply m rf =
      (record { term = ground arith; role = ground arith }, (ground arith, λ z. ground arith))

  -- A move that writes no log, as a change of one peer.
  pub record Turned (s u : Cluster C) : Type 0 where
    pub i : ℕ
    pub rf : Raft C
    pub peer : u.peer ≡ update s.peer i rf
    pub life : Life (s.peer i) rf
    pub same : SameLog (s.peer i) rf
    pub ballots : (b : Ballot) → Has b s.ballots → Has b u.ballots

  pub Move-Turned :
      {s u : Cluster C} (m : Move gob n s u)
      → ((i : ℕ) → IsDurable gob (s.peer i))
      → IsStill gob n m
      → Turned s u
  Move-Turned {s} (quiet i {rf} q) d l = record {
    i = i;
    rf = rf;
    peer = refl;
    life = KeepsRole-Life (s.peer i) rf (Quiet-Keeps gob q).0 (Quiet-KeepsRole gob q);
    same = Quiet-SameLog q l;
    ballots = λ b h. h;
  }
  Move-Turned {s} (grant i args t {rf} {reply} lt h) d l = record {
    i = i;
    rf = rf;
    peer = refl;
    life =
        KeepsRole-Life (s.peer i) rf (request_vote-Keeps gob args t (s.peer i) rf reply h).0
          (request_vote-KeepsRole gob args t (s.peer i) rf reply h);
    same = request_vote-SameLog args t (s.peer i) rf reply h;
    ballots = λ b hb. ground arith;
  }
  Move-Turned {s} (elect i t lt) d l = record {
    i = i;
    rf = start_election gob t (s.peer i);
    peer = refl;
    life = (start_election-Life t (s.peer i)).0;
    same = (start_election-Life t (s.peer i)).1;
    ballots = λ b h. inr h;
  }
  Move-Turned {s} (tally_vote i v t reply g hb cur fresh) d l = record {
    i = i;
    rf = (handle_vote_reply gob reply (length (s.tally i)) (s.peer i)).0;
    peer = refl;
    life = (handle_vote_reply-Life reply (length (s.tally i)) (s.peer i)).0;
    same = (handle_vote_reply-Life reply (length (s.tally i)) (s.peer i)).1;
    ballots = λ b h. h;
  }
  Move-Turned {s} (restart i t {rf} h) d l =
      let r = make-Remade gob (s.peer i) rf n i t (d i) h in
      record {
        i = i;
        rf = rf;
        peer = refl;
        life = record { term = ground (arith, r.term); role = inl r.role };
        same = (r.log, λ e. r.base);
        ballots = λ b hb. hb;
      }
