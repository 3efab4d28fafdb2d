-- ===== src/Raft/Append/Reply.antt =====
-- AppendEntries seen from its reply: what a success and what a failure say of the log.
use mit.Prelude.{
  ℕ, ◌≡◌, refl, sym, ap, ◌∙◌, ◌≤◌, ◌⊎◌, inl, inr, true, false, some, arith, >>=-eq-some,
}
use mathlib.Core.Path.{subst}
use mathlib.Core.Option.{some-injective}
use mit.Raft.Types.{follower, Raft, Tick, AppendEntriesArgs, AppendEntriesReply}
use mit.Raft.Gob.{Gob}
use mit.Raft.Local.{entry_at, term_at, switch_to}
use mit.Raft.Append.{
  store_entries, finish_append, accept_entries, check_entries, is_consistent, conflict_reply,
  adopt_leader_term, append_entries,
}
use mit.Raft.Append.Frame.{accept_entries-Accepted}
use mit.Raft.Append.Agree.{Stored, store_entries-Stored}

module _ {C : Type 0} where
  record SameLog (rf rf' : Raft C) : Type 0 where
    log : rf.log ≡ rf'.log
    base : rf.last_included_index ≡ rf'.last_included_index

  entry_at_same : (rf rf' : Raft C) (j : ℕ) → SameLog rf rf' → entry_at rf j ≡ entry_at rf' j
  unfolding entry_at
  entry_at_same rf rf' j s = rw (s.log, s.base) refl

  term_at_same : (rf rf' : Raft C) (j : ℕ) → SameLog rf rf' → term_at rf j ≡ term_at rf' j
  unfolding term_at
  term_at_same rf rf' j s = rw (entry_at_same rf rf' j s) refl

  Stored-SameLog :
      (args : AppendEntriesArgs C) (rf rf₁ rf₂ rf' : Raft C)
      → SameLog rf rf₁
      → SameLog rf₂ rf'
      → Stored args rf₁ rf₂
      → Stored args rf rf'
  Stored-SameLog args rf rf₁ rf₂ rf' s s' w = record {
    holds = λ i e q. sym (term_at_same rf₂ rf' _ s') ∙ w.holds i e q;
    before =
        λ j le. sym (entry_at_same rf₂ rf' j s') ∙ w.before j le ∙ sym (entry_at_same rf rf₁ j s);
  }

module _ {C : Type 0} (gob : Gob C) where
  finish_append-SameLog :
      (args : AppendEntriesArgs C) (t : Tick) (rf : Raft C)
      → SameLog rf (finish_append gob args t rf).0
  unfolding finish_append
  finish_append-SameLog args t rf = ground arith

  accept_entries_success :
      (args : AppendEntriesArgs C) (t : Tick) (rf rf' : Raft C) (reply : AppendEntriesReply)
      → accept_entries gob args t rf ≡ some (rf', reply)
      → (reply.success ≡ true) × Stored args rf rf'
  unfolding accept_entries finish_append switch_to
  accept_entries_success args t rf rf' reply h =
      let (rf₁, stored, done) = >>=-eq-some (store_entries args (switch_to follower rf)) _ h in
      let pair = some-injective (finish_append gob args t rf₁) (rf', reply) done in
      (
        sym (ap (λ p. p.1.success) pair),
        Stored-SameLog args rf (switch_to follower rf) rf₁ rf' (record { log = refl; base = refl })
            (subst (λ r. SameLog rf₁ r) (ap (λ p. p.0) pair) (finish_append-SameLog args t rf₁))
            (store_entries-Stored args (switch_to follower rf) rf₁ stored),
      )

  conflict_reply_fails :
      (args : AppendEntriesArgs C) (rf : Raft C) (reply : AppendEntriesReply)
      → conflict_reply args rf ≡ some reply
      → reply.success ≡ false
  unfolding conflict_reply
  conflict_reply_fails args rf reply h = ground arith

  -- Whether the consistency check accepts shows in the reply.
  check_entries_success :
      (args : AppendEntriesArgs C) (t : Tick) (rf rf' : Raft C) (reply : AppendEntriesReply)
      → check_entries gob args t rf ≡ some (rf', reply)
      → reply.success ≡ true
      → (term_at rf args.prev_log_index ≡ some args.prev_log_term)
        × (accept_entries gob args t rf ≡ some (rf', reply))
  unfolding check_entries is_consistent
  check_entries_success args t rf rf' reply h s = ground (arith, conflict_reply_fails args rf reply)

  check_entries_refuses :
      (args : AppendEntriesArgs C) (t : Tick) (rf rf' : Raft C) (reply : AppendEntriesReply)
      → check_entries gob args t rf ≡ some (rf', reply)
      → reply.success ≡ false
      → rf' ≡ rf
  unfolding check_entries
  check_entries_refuses args t rf rf' reply h s =
      ground (arith, accept_entries_success args t rf rf' reply)

  record Agreed (args : AppendEntriesArgs C) (rf rf' : Raft C) : Type 0 where
    pub term : rf'.current_term ≡ rf.current_term
    previous : term_at rf args.prev_log_index ≡ some args.prev_log_term
    pub stored : Stored args rf rf'

  check_entries-Agreed :
      (args : AppendEntriesArgs C) (t : Tick) (rf rf' : Raft C) (reply : AppendEntriesReply)
      → check_entries gob args t rf ≡ some (rf', reply)
      → reply.success ≡ true
      → Agreed args rf rf'
  check_entries-Agreed args t rf rf' reply h s =
      let (previous, accepted) = check_entries_success args t rf rf' reply h s in
      record {
        term = (accept_entries-Accepted gob args t rf rf' reply accepted).term;
        previous = previous;
        stored = (accept_entries_success args t rf rf' reply accepted).1;
      }

  append_entries_cases :
      (args : AppendEntriesArgs C) (t u : Tick) (rf rf' : Raft C) (reply : AppendEntriesReply)
      → append_entries gob args t u rf ≡ some (rf', reply)
      → reply.success ≡ true
      → (rf.current_term ≤ args.term)
        × ((rf.current_term ≡ args.term) × (check_entries gob args u rf ≡ some (rf', reply))
            ⊎ (check_entries gob args u (adopt_leader_term gob args.term t rf) ≡ some (rf', reply)))
  unfolding append_entries
  append_entries_cases args t u rf rf' reply h s = ground arith

  -- AppendEntries that replies success: the term of the request was not below the peer's, the peer's
  -- log held the leader's previous entry, and now it holds the leader's entries behind that one, by
  -- their terms, while the log up to the previous entry is as before.
  pub append_entries_agrees :
      (args : AppendEntriesArgs C) (t u : Tick) (rf rf' : Raft C) (reply : AppendEntriesReply)
      → append_entries gob args t u rf ≡ some (rf', reply)
      → reply.success ≡ true
      → (rf.current_term ≤ args.term)
        × (rf'.current_term ≡ args.term)
        × (term_at rf args.prev_log_index ≡ some args.prev_log_term)
        × Stored args rf rf'
  unfolding adopt_leader_term
  append_entries_agrees args t u rf rf' reply h s =
      let (le, cases) = append_entries_cases args t u rf rf' reply h s in
      elim cases [
        | inl (e, checked) ↦
            let a = check_entries-Agreed args u rf rf' reply checked s in
            (le, a.term ∙ e, a.previous, a.stored)
        | inr checked ↦
            let adopted = adopt_leader_term gob args.term t rf in
            let same : SameLog rf adopted = record { log = refl; base = refl } in
            let a = check_entries-Agreed args u adopted rf' reply checked s in
            (
              le,
              a.term,
              term_at_same rf adopted args.prev_log_index same ∙ a.previous,
              Stored-SameLog args rf adopted rf' rf' same (record { log = refl; base = refl })
                  a.stored,
            )
      ]

  -- AppendEntries that replies failure leaves the log and the commit index as they were.
  pub append_entries_refuses :
      (args : AppendEntriesArgs C) (t u : Tick) (rf rf' : Raft C) (reply : AppendEntriesReply)
      → append_entries gob args t u rf ≡ some (rf', reply)
      → reply.success ≡ false
      → (rf'.log ≡ rf.log) × (rf'.commit_index ≡ rf.commit_index)
  unfolding append_entries adopt_leader_term
  append_entries_refuses args t u rf rf' reply h s = ground (
    arith,
    check_entries_refuses args u rf rf' reply,
    check_entries_refuses args u (adopt_leader_term gob args.term t rf) rf' reply,
  )
