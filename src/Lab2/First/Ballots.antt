-- ===== src/Lab2/First/Ballots.antt =====
-- Lab2_Raft/Part2A: a peer grants one vote a term.
use mit.Prelude.{ℕ, ◌≡◌, ◌≤◌, ◌<◌, ◌↔◌, Bool, true, false, [], arith, refl, Bool-cases, inl, inr}
use mit.Lab2.First.{
  Raft, RequestVoteArgs, AppendEntryArgs, RequestVoteReply, AppendEntryReply, request_vote,
  decide_vote, is_long, append_entries, handle_vote_reply, handle_append_reply, vote_args,
  switch_to, reset_timer, start_election, increment_term, follower_turn, candidate_turn,
}

module _ {C : Type 0} where
  -- The locked sections of a peer.
  pub data Step (rf : Raft C) : Raft C → Type 0 where
    vote : (args : RequestVoteArgs) → Step rf (request_vote args rf).0
    append : (args : AppendEntryArgs C) (r : ℕ) → Step rf (append_entries args r rf).0
    vote_reply : (reply : RequestVoteReply) → Step rf (handle_vote_reply reply rf)
    append_reply : (reply : AppendEntryReply) (r : ℕ) → Step rf (handle_append_reply reply r rf)
    follow : (r : ℕ) → Step rf (follower_turn r rf)
    campaign : (fired : Bool) (r r' : ℕ) → Step rf (candidate_turn fired r r' rf)

  pub data Reach (rf : Raft C) : Raft C → Type 0 where
    here : Reach rf rf
    next : {rf₁ rf₂ : Raft C} → Reach rf rf₁ → Step rf₁ rf₂ → Reach rf rf₂

  -- What a step keeps: the log, and a term that never falls.
  record Later (rf rf' : Raft C) : Type 0 where
    term : rf.current_term ≤ rf'.current_term
    logs : rf'.logs ≡ rf.logs

  Step-Later : {rf rf' : Raft C} → Step rf rf' → Later rf rf'
  unfolding request_vote decide_vote append_entries handle_vote_reply handle_append_reply
      follower_turn candidate_turn switch_to start_election increment_term reset_timer
  Step-Later (vote args) = record { term = ground arith; logs = ground arith }
  Step-Later (append args r) = record { term = ground arith; logs = ground arith }
  Step-Later (vote_reply reply) = record { term = ground arith; logs = ground arith }
  Step-Later (append_reply reply r) = record { term = ground arith; logs = ground arith }
  Step-Later (follow r) = record { term = ground arith; logs = ground arith }
  Step-Later (campaign fired r r') = record { term = ground arith; logs = ground arith }

  Reach-Later : {rf rf' : Raft C} → Reach rf rf' → Later rf rf'
  Reach-Later here = record { term = omega arith; logs = refl }
  Reach-Later (next r s) =
      let a = Reach-Later r in
      let b = Step-Later s in
      record { term = omega (arith, a.term, b.term); logs = ground (arith, a.logs, b.logs) }

  -- A request of a peer whose log is empty is granted exactly if its term is new.
  granted_iff :
      (rf asker : Raft C)
      → asker.logs ≡ []
      → ((request_vote (vote_args asker) rf).1.vote_granted ≡ true)
        ↔ (rf.current_term < asker.current_term)
  unfolding request_vote decide_vote vote_args is_long
  granted_iff rf asker h = (λ g. ground (arith, h), λ lt. ground (arith, h))

  granted_term :
      (args : RequestVoteArgs) (rf : Raft C)
      → (request_vote args rf).1.vote_granted ≡ true
      → args.term ≤ (request_vote args rf).0.current_term
  unfolding request_vote decide_vote switch_to
  granted_term args rf g = ground arith

  -- After a peer has granted a vote, and any sections have run, it grants no vote of that term or one
  -- before, to whatever peer whose log is empty.
  pub one_vote :
      (args : RequestVoteArgs) (rf rf' asker : Raft C)
      → (request_vote args rf).1.vote_granted ≡ true
      → Reach (request_vote args rf).0 rf'
      → asker.logs ≡ []
      → asker.current_term ≤ args.term
      → (request_vote (vote_args asker) rf').1.vote_granted ≡ false
  one_vote args rf rf' asker g run empty le =
      elim (Bool-cases (request_vote (vote_args asker) rf').1.vote_granted) [
        | inl again ↦
            let lt = (granted_iff rf' asker empty).0 again in
            absurd (omega (arith, lt, granted_term args rf g, (Reach-Later run).term))
        | inr refused ↦ refused
      ]
