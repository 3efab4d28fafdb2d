-- ===== src/Raft/Cluster/Invariant.antt =====
-- What every move of a cluster keeps of its peers, votes and counts.
use mit.Prelude.{
  ℕ, ◌+◌, ◌≡◌, ◌<◌, inl, inr, true, some, List, [], ◌∷◌, arith, length, if◌then◌else◌, Bool-cases,
}
use mit.Raft.Types.{Raft, Tick, RequestVoteArgs, RequestVoteReply}
use mit.Raft.Gob.{Gob}
use mit.Raft.Vote.{is_current, request_vote, start_election, handle_vote_reply}
use mit.Raft.Vote.Rules.{vote_recorded}
use mit.Raft.Service.Restart.{Keeps-IsDurable, Remade, make-Remade}
use mit.Raft.Steps.Monotone.{
  Keeps, KeepsVote, Quiet-Keeps, request_vote-Keeps, start_election-Keeps, handle_vote_reply-Keeps,
}
use mit.Raft.Steps.Role.{KeepsRole, Quiet-KeepsRole, request_vote-KeepsRole}
use mit.Raft.Cluster.{
  Ballot, Has, update, count, Cluster, Move, quiet, grant, elect, tally_vote, restart,
}
use mit.Raft.Cluster.Votes.{
  Peers, Votes, Counted, Turn, turn-Peers, turn-Votes, ballot-Votes, more-Counted, role-Counted,
}
use mit.Raft.Cluster.Updates.{update-all, update-all_both, update_self}

module _ {C : Type 0} (gob : Gob C) (n : ℕ) where
  pub record Inv (s : Cluster C) : Type 0 where
    pub peers : Peers gob n s.peer
    pub votes : Votes gob n s.peer s.ballots
    pub counted : (i : ℕ) → Counted gob n i (s.peer i) s.ballots (s.tally i)

  Keeps-Turn : (rf rf' : Raft C) → Keeps gob rf rf' → KeepsVote gob rf rf' → Turn gob n rf rf'
  Keeps-Turn rf rf' k kv = record {
    who = k.me;
    size = k.peers;
    durable = Keeps-IsDurable gob rf rf' k;
    term = k.term;
    vote = kv;
  }

  Remade-Turn :
      (i : ℕ) (rf rf' : Raft C)
      → rf.me ≡ i
      → rf.peers ≡ n
      → Remade gob n i rf rf'
      → Turn gob n rf rf'
  Remade-Turn i rf rf' e q r = record {
    who = ground (arith, r.who);
    size = ground (arith, r.size);
    durable = λ d. r.durable;
    term = ground (arith, r.term);
    vote = λ v t o. ground (arith, r.vote);
  }

  module _ {s : Cluster C} (inv : Inv s) (i : ℕ) where
    -- A peer that wins nothing.
    move-Inv :
        (rf : Raft C)
        → Turn gob n (s.peer i) rf
        → KeepsRole gob (s.peer i) rf
        → Inv (record s { peer = update s.peer i rf })
    move-Inv rf t role = record {
      peers = turn-Peers gob n s.peer s.ballots i rf t inv.peers;
      votes = turn-Votes gob n s.peer s.ballots i rf t inv.votes;
      counted =
          update-all s.peer s.tally i (λ j r xs. Counted gob n j r s.ballots xs) rf
            (role-Counted gob n i (s.peer i) rf s.ballots (s.tally i) role (inv.counted i))
            inv.counted;
    }

    -- A vote that peer `i` has recorded.
    ballot-Inv :
        (c t : ℕ)
        → i < n
        → (s.peer i).current_term ≡ t
        → (s.peer i).vote_for ≡ some c
        → Inv (record s { ballots = record { voter = i; candidate = c; term = t } ∷ s.ballots })
    ballot-Inv c t lt e v = record {
      peers = inv.peers;
      votes = ballot-Votes gob n s.peer s.ballots i c t lt e v inv.votes;
      counted = λ j.
          more-Counted gob n j (s.peer j) (record { voter = i; candidate = c; term = t }) s.ballots
            (s.tally j) (inv.counted j);
    }

    -- A peer with a new count.
    count-Inv :
        (rf : Raft C) (xs : List ℕ)
        → Turn gob n (s.peer i) rf
        → Counted gob n i rf s.ballots xs
        → Inv (record s { peer = update s.peer i rf; tally = update s.tally i xs })
    count-Inv rf xs t c = record {
      peers = turn-Peers gob n s.peer s.ballots i rf t inv.peers;
      votes = turn-Votes gob n s.peer s.ballots i rf t inv.votes;
      counted =
          update-all_both s.peer s.tally i (λ j r ys. Counted gob n j r s.ballots ys) rf xs c
            inv.counted;
    }

    elect-Inv :
        (t : Tick)
        → i < n
        → let b : Ballot = record {
          voter = i;
          candidate = i;
          term = (s.peer i).current_term + 1;
        } in
          Inv (record {
            peer = update s.peer i (start_election gob t (s.peer i));
            ballots = b ∷ s.ballots;
            tally = update s.tally i (i ∷ []);
          })
    unfolding start_election
    elect-Inv t lt =
        let rf = start_election gob t (s.peer i) in
        let k = start_election-Keeps gob t (s.peer i) in
        let turn = Keeps-Turn (s.peer i) rf k.0 k.1 in
        let b : Ballot = record { voter = i; candidate = i; term = (s.peer i).current_term + 1 } in
        record {
          peers = turn-Peers gob n s.peer s.ballots i rf turn inv.peers;
          votes =
              ballot-Votes gob n (update s.peer i rf) s.ballots i i ((s.peer i).current_term + 1) lt
                (ground (arith, update_self s.peer i rf))
                (ground (arith, update_self s.peer i rf, inv.peers.who i))
                (turn-Votes gob n s.peer s.ballots i rf turn inv.votes);
          counted =
              update-all_both s.peer s.tally i (λ j r ys. Counted gob n j r (b ∷ s.ballots) ys) rf
                (i ∷ [])
                (record {
                  cast = λ v r p. ground arith;
                  distinct = λ v. ground arith;
                  below = (lt, tt);
                  won = λ l. ground arith;
                })
                (λ j. more-Counted gob n j (s.peer j) b s.ballots (s.tally j) (inv.counted j));
        }

  module _ {s : Cluster C} (inv : Inv s) (i : ℕ) where
    grant-Inv :
        (args : RequestVoteArgs) (t : Tick) (rf : Raft C) (reply : RequestVoteReply)
        → i < n
        → request_vote gob args t (s.peer i) ≡ some (rf, reply)
        → Inv (record s {
          peer = update s.peer i rf;
          ballots =
              if reply.vote_granted
              then record { voter = i; candidate = args.candidate_id; term = args.term } ∷ s.ballots
              else s.ballots;
        })
    grant-Inv args t rf reply lt h =
        let k = request_vote-Keeps gob args t (s.peer i) rf reply h in
        let moved =
          move-Inv inv i rf (Keeps-Turn (s.peer i) rf k.0 k.1)
            (request_vote-KeepsRole gob args t (s.peer i) rf reply h) in
        elim (Bool-cases reply.vote_granted) [
          | inl yes' ↦
              let (term, vote, disk, before) =
                vote_recorded gob args t (s.peer i) rf reply h yes' in
              rw yes' (
                ballot-Inv moved i args.candidate_id args.term lt
                  (ground (arith, update_self s.peer i rf))
                  (ground (arith, update_self s.peer i rf)))
          | inr no' ↦ rw no' moved
        ]

    tally-Inv :
        (v t : ℕ) (reply : RequestVoteReply)
        → reply.vote_granted ≡ true
        → Has (record { voter = v; candidate = i; term = t }) s.ballots
        → is_current t (s.peer i) ≡ true
        → count v (s.tally i) ≡ 0
        → Inv (record s {
          peer = update s.peer i (handle_vote_reply gob reply (length (s.tally i)) (s.peer i)).0;
          tally = update s.tally i (v ∷ s.tally i);
        })
    unfolding handle_vote_reply is_current
    tally-Inv v t reply g b cur fresh =
        let rf = (handle_vote_reply gob reply (length (s.tally i)) (s.peer i)).0 in
        let k = handle_vote_reply-Keeps gob reply (length (s.tally i)) (s.peer i) in
        let c = inv.counted i in
        count-Inv inv i rf (v ∷ s.tally i) (Keeps-Turn (s.peer i) rf k.0 k.1) (record {
          cast = λ w r p. ground (arith, c.cast w);
          distinct = λ w. ground (arith, c.distinct w);
          below = (inv.votes.voters (record { voter = v; candidate = i; term = t }) b, c.below);
          won = λ l. ground (arith, c.won, inv.peers.size i);
        })

  pub Move-Inv : {s u : Cluster C} → Move gob n s u → Inv s → Inv u
  Move-Inv {s} (quiet i {rf} q) inv =
      let k = Quiet-Keeps gob q in
      move-Inv inv i rf (Keeps-Turn (s.peer i) rf k.0 k.1) (Quiet-KeepsRole gob q)
  Move-Inv (grant i args t {rf} {reply} lt h) inv = grant-Inv inv i args t rf reply lt h
  Move-Inv (elect i t lt) inv = elect-Inv inv i t lt
  Move-Inv (tally_vote i v t reply g b cur fresh) inv = tally-Inv inv i v t reply g b cur fresh
  Move-Inv {s} (restart i t {rf} h) inv =
      let r = make-Remade gob (s.peer i) rf n i t (inv.peers.durable i) h in
      move-Inv inv i rf (Remade-Turn i (s.peer i) rf (inv.peers.who i) (inv.peers.size i) r)
        (inl r.role)
