-- ===== src/Lab2/Upgrade/Election.antt =====
-- Elections in both stages.
use mit.Prelude.{ne_none-some, ℕ, ◌-◌, ◌≡◌, ◌≢◌, sym, ◌<◌, none, some, arith, length}
use mit.Raft.Types.{Raft, Tick, RequestVoteArgs, RequestVoteReply}
use mit.Raft.Gob.{Gob}
use mit.Raft.Local.{last_log_index}
use mit.Raft.Vote.{request_vote, consider_vote, start_election, handle_vote_reply, adopt_term}
use mit.Lab2.Peer
use mit.Lab2.Election
use mit.Raft.Vote.{vote_args}
use mit.Raft.Steps.Monotone.{request_vote-Keeps, start_election-Keeps, handle_vote_reply-Keeps}
use mit.Lab2.Upgrade.Disk.{
  Twins, Keeps-IsSaved, request_vote-IsOldSaved, start_election-IsOldSaved,
  handle_vote_reply-IsOldSaved,
}
use mit.Lab2.Upgrade.{Alike, Alike-length, Alike-term_at}

module _ {C : Type 0} (gob : Gob C) (old_gob : Peer.StateGob C) where
  adopt_term-Alike :
      (t : ℕ) (old : Peer.Raft C) (rf : Raft C)
      → Alike old rf
      → Alike (Election.adopt_term old_gob t old) (adopt_term gob t rf)
  unfolding adopt_term Election.adopt_term
  adopt_term-Alike t old rf a = ground (arith, a)

  -- Where both return, they return the same.
  consider_vote_agrees :
      (args : RequestVoteArgs) (t : Tick) (old old' : Peer.Raft C) (rf rf' : Raft C)
      (reply old_reply : RequestVoteReply)
      → Alike old rf
      → consider_vote gob args t rf ≡ some (rf', reply)
      → Election.consider_vote old_gob args t old ≡ some (old', old_reply)
      → Alike old' rf' × (old_reply ≡ reply)
  unfolding consider_vote Election.consider_vote last_log_index
  consider_vote_agrees args t old old' rf rf' reply old_reply a h h' = (
    ground (arith, a, Alike-length old rf a, Alike-term_at old rf (length rf.log - 1) a),
    ground (arith, a, Alike-length old rf a, Alike-term_at old rf (length rf.log - 1) a),
  )

  consider_vote_returns :
      (args : RequestVoteArgs) (t : Tick) (old : Peer.Raft C) (rf rf' : Raft C)
      (reply : RequestVoteReply)
      → Alike old rf
      → consider_vote gob args t rf ≡ some (rf', reply)
      → Election.consider_vote old_gob args t old ≢ none
  unfolding consider_vote Election.consider_vote last_log_index
  consider_vote_returns args t old rf rf' reply a h =
      ground (arith, a, Alike-length old rf a, Alike-term_at old rf (length rf.log - 1) a)

  request_vote_agrees :
      (args : RequestVoteArgs) (t : Tick) (old old' : Peer.Raft C) (rf rf' : Raft C)
      (reply old_reply : RequestVoteReply)
      → Alike old rf
      → request_vote gob args t rf ≡ some (rf', reply)
      → Election.request_vote old_gob args t old ≡ some (old', old_reply)
      → Alike old' rf' × (old_reply ≡ reply)
  unfolding request_vote Election.request_vote
  request_vote_agrees args t old old' rf rf' reply old_reply a h h' =
      let adopted = adopt_term-Alike args.term old rf a in
      (
        ground (
          arith,
          a,
          adopted,
          consider_vote_agrees args t old old' rf rf' reply old_reply a,
          consider_vote_agrees args t (Election.adopt_term old_gob args.term old) old'
              (adopt_term gob args.term rf) rf' reply old_reply adopted,
        ),
        ground (
          arith,
          a,
          adopted,
          consider_vote_agrees args t old old' rf rf' reply old_reply a,
          consider_vote_agrees args t (Election.adopt_term old_gob args.term old) old'
              (adopt_term gob args.term rf) rf' reply old_reply adopted,
        ),
      )

  request_vote_returns :
      (args : RequestVoteArgs) (t : Tick) (old : Peer.Raft C) (rf rf' : Raft C)
      (reply : RequestVoteReply)
      → Alike old rf
      → request_vote gob args t rf ≡ some (rf', reply)
      → Election.request_vote old_gob args t old ≢ none
  unfolding request_vote Election.request_vote
  request_vote_returns args t old rf rf' reply a h = ground (
    arith,
    a,
    consider_vote_returns args t old rf rf' reply a,
    consider_vote_returns args t (Election.adopt_term old_gob args.term old)
        (adopt_term gob args.term rf) rf' reply (adopt_term-Alike args.term old rf a),
  )

  -- On peers that are alike, each with its term, vote and log on disk, RequestVote of Lab2_Raft/Part2C
  -- answers as that of Lab3_KV_Raft/PartB does, and leaves peers that are alike, again with their terms,
  -- votes and logs on disk.
  pub request_vote-Alike :
      (args : RequestVoteArgs) (t : Tick) (old : Peer.Raft C) (rf rf' : Raft C)
      (reply : RequestVoteReply)
      → Twins gob old_gob old rf
      → request_vote gob args t rf ≡ some (rf', reply)
      → (old' : Peer.Raft C) × (Election.request_vote old_gob args t old ≡ some (old', reply))
        × Twins gob old_gob old' rf'
  request_vote-Alike args t old rf rf' reply a h =
      let ((old', r), e) =
        ne_none-some (Election.request_vote old_gob args t old)
          (request_vote_returns args t old rf rf' reply a.alike h) in
      let (alike, same) = request_vote_agrees args t old old' rf rf' reply r a.alike h e in
      (
        old',
        rw (sym same) e,
        record {
          alike = alike;
          saved =
              Keeps-IsSaved gob old_gob rf rf' (request_vote-Keeps gob args t rf rf' reply h).0
                a.saved;
          old_saved = request_vote-IsOldSaved old_gob args t old old' r e a.old_saved;
        },
      )

  election_agrees :
      (t : Tick) (reply : RequestVoteReply) (n_votes : ℕ) (old : Peer.Raft C) (rf : Raft C)
      → Alike old rf
      → 0 < length rf.log
      → let (old', m, o) = Election.handle_vote_reply old_gob reply n_votes old in
        let (rf', n, b) = handle_vote_reply gob reply n_votes rf in
        Alike (Election.start_election old_gob t old) (start_election gob t rf)
        × Alike old' rf'
        × (m ≡ n)
        × (o ≡ b)
  unfolding start_election Election.start_election handle_vote_reply Election.handle_vote_reply
      last_log_index
  election_agrees t reply n_votes old rf a filled = (
    ground (arith, a),
    ground (arith, a, Alike-length old rf a),
    ground (arith, a),
    ground (arith, a),
  )

  -- On such peers, startElection and the handling of the replies leave such peers, in both stages with
  -- the same requests for votes, the same count of votes and the same decision to begin with heartbeats.
  pub election-Alike :
      (t : Tick) (reply : RequestVoteReply) (n_votes : ℕ) (old : Peer.Raft C) (rf : Raft C)
      → Twins gob old_gob old rf
      → 0 < length rf.log
      → let (old', m, o) = Election.handle_vote_reply old_gob reply n_votes old in
        let (rf', n, b) = handle_vote_reply gob reply n_votes rf in
        Twins gob old_gob (Election.start_election old_gob t old) (start_election gob t rf)
        × (Election.vote_args (Election.start_election old_gob t old)
            ≡ vote_args (start_election gob t rf))
        × Twins gob old_gob old' rf'
        × (m ≡ n)
        × (o ≡ b)
  unfolding Election.vote_args vote_args last_log_index
  election-Alike t reply n_votes old rf a filled =
      let (begun, like, count, beat) = election_agrees t reply n_votes old rf a.alike filled in
      let old₁ = Election.start_election old_gob t old in
      let rf₁ = start_election gob t rf in
      (
        record {
          alike = begun;
          saved = Keeps-IsSaved gob old_gob rf rf₁ (start_election-Keeps gob t rf).0 a.saved;
          old_saved = start_election-IsOldSaved old_gob t old;
        },
        ground (
          arith,
          begun,
          Alike-length old₁ rf₁ begun,
          Alike-term_at old₁ rf₁ (length rf₁.log - 1) begun,
        ),
        record {
          alike = like;
          saved =
              Keeps-IsSaved gob old_gob rf _ (handle_vote_reply-Keeps gob reply n_votes rf).0
                a.saved;
          old_saved = handle_vote_reply-IsOldSaved old_gob reply n_votes old a.old_saved;
        },
        count,
        beat,
      )
