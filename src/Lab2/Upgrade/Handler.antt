-- ===== src/Lab2/Upgrade/Handler.antt =====
-- The handler AppendEntries in both stages.
use mit.Prelude.{
  ℕ, ◌≡◌, ◌≢◌, refl, ◌<◌, ◌≤◌, none, some, arith, length, ne_none-some, ◌∙◌, true, false,
}
use mit.Raft.Types.{Raft, Tick, AppendEntriesArgs, AppendEntriesReply}
use mit.Raft.Gob.{Gob}
use mit.Raft.Local.{last_log_index}
use native.Mathlib.Decide.{dec_lt}
use mit.Raft.Append.{
  zero_reply, conflict_reply, adopt_leader_term, accept_entries, is_consistent, check_entries,
  append_entries,
}
use mit.Lab2.Peer
use mit.Lab2.Append
use mit.Lab2.Upgrade.{Alike, Alike-length}
use mit.Lab2.Upgrade.Append.{
  forget_args, is_consistent_alike, is_consistent_short, conflict_reply_agrees,
  conflict_reply_returns, conflict_reply_short,
}
use mit.Raft.Steps.{append}
use mit.Raft.Steps.Monotone.{Quiet-Keeps}
use mit.Lab2.Upgrade.Disk.{Twins, Keeps-IsSaved, append_entries-IsOldSaved}
use mit.Lab2.Upgrade.Accept.{SameReply, accept_entries_agrees, accept_entries_returns}

module _ {C : Type 0} (gob : Gob C) (old_gob : Peer.StateGob C) where
  check_entries_returns :
      (args : AppendEntriesArgs C) (t : Tick) (old : Peer.Raft C) (rf rf' : Raft C)
      (r : AppendEntriesReply)
      → Alike old rf
      → 0 < length rf.log
      → check_entries gob args t rf ≡ some (rf', r)
      → Append.check_entries old_gob (forget_args args) t old ≢ none
  unfolding check_entries Append.check_entries last_log_index is_consistent
  check_entries_returns args t old rf rf' r a f h = ground (
    arith,
    a.base,
    Alike-length old rf a,
    is_consistent_alike old rf a gob args,
    conflict_reply_returns old rf a args r,
    accept_entries_returns gob old_gob args t old rf rf' r a,
    conflict_reply_short old rf a args,
  )

  -- The three ways through the checks of the later stage.
  data Way (args : AppendEntriesArgs C) (t : Tick) (rf rf' : Raft C) (r : AppendEntriesReply)
      : Type 0 where
    too_short :
        length rf.log ≤ args.prev_log_index
        → rf' ≡ rf
        → r ≡ record zero_reply { conflict_first_index = length rf.log }
        → Way args t rf rf' r
    other_term :
        args.prev_log_index < length rf.log
        → is_consistent gob args rf ≡ some false
        → rf' ≡ rf
        → conflict_reply args rf ≡ some r
        → Way args t rf rf' r
    accepted :
        args.prev_log_index < length rf.log
        → is_consistent gob args rf ≡ some true
        → accept_entries gob args t rf ≡ some (rf', r)
        → Way args t rf rf' r

  check_entries-Way :
      (args : AppendEntriesArgs C) (t : Tick) (rf rf' : Raft C) (r : AppendEntriesReply)
      → rf.last_included_index ≡ 0
      → 0 < length rf.log
      → check_entries gob args t rf ≡ some (rf', r)
      → Way args t rf rf' r
  unfolding check_entries last_log_index
  check_entries-Way args t rf rf' r z f h = elim (dec_lt args.prev_log_index (length rf.log)) [
    | no short ↦ too_short (omega arith) (ground arith) (ground arith)
    | yes long ↦
        elim (is_consistent gob args rf)
            as (λ m. is_consistent gob args rf ≡ m → Way args t rf rf' r) [
              | none ↦ λ e. absurd (ground arith)
              | some true ↦ λ e. accepted long e (ground arith)
              | some false ↦ λ e. other_term long e (ground arith) (ground arith)
            ]
          refl
  ]

  module _ (args : AppendEntriesArgs C) (t : Tick) (old old' : Peer.Raft C) (rf rf' : Raft C)
      (r r' : AppendEntriesReply) (a : Alike old rf) (due : rf.current_term ≤ args.term) where
    Way-agrees :
        Way args t rf rf' r
        → Append.check_entries old_gob (forget_args args) t old ≡ some (old', r')
        → Alike old' rf' × SameReply args.term r' r
    unfolding Append.check_entries
    Way-agrees (too_short le e q) h =
        let consistent = is_consistent_short old rf a args le in
        let short = conflict_reply_short old rf a args le in
        let stays : old' ≡ old = ground (arith, consistent, short, a.base) in
        let reply : r' ≡ record {
          term = rf.current_term;
          conflict_term = 0;
          conflict_first_index = length rf.log;
          success = false;
        } =
          ground (arith, consistent, short, a.base) in
        (
          rw (stays, e) a,
          record {
            term = ground (arith, reply, q);
            success = ground (arith, reply, q);
            conflict_term = ground (arith, reply, q);
            conflict_first_index = ground (arith, reply, q);
          },
        )
    Way-agrees (other_term lt no' e q) h =
        let consistent = is_consistent_alike old rf a gob args ∙ no' in
        let refused : Append.conflict_reply (forget_args args) old ≡ some r' =
          ground (arith, consistent) in
        let stays : old' ≡ old = ground (arith, consistent) in
        let same = conflict_reply_agrees old rf a args r r' q refused in
        (
          rw (stays, e) a,
          rw same (record {
            term = refl;
            success = refl;
            conflict_term = refl;
            conflict_first_index = refl;
          }),
        )
    Way-agrees (accepted lt yes' e) h =
        let consistent = is_consistent_alike old rf a gob args ∙ yes' in
        accept_entries_agrees gob old_gob args t old old' rf rf' r r' a due lt e
          (ground (arith, consistent))

  adopt_leader_term-Alike :
      (term : ℕ) (t : Tick) (old : Peer.Raft C) (rf : Raft C)
      → Alike old rf
      → Alike (Append.adopt_leader_term old_gob term t old) (adopt_leader_term gob term t rf)
        × (length (adopt_leader_term gob term t rf).log ≡ length rf.log)
  unfolding adopt_leader_term Append.adopt_leader_term
  adopt_leader_term-Alike term t old rf a = (ground (arith, a), ground arith)

  check_entries-Alike :
      (args : AppendEntriesArgs C) (t : Tick) (old : Peer.Raft C) (rf rf' : Raft C)
      (r : AppendEntriesReply)
      → Alike old rf
      → rf.current_term ≤ args.term
      → 0 < length rf.log
      → check_entries gob args t rf ≡ some (rf', r)
      → (old' : Peer.Raft C) × (r' : AppendEntriesReply) × (Append.check_entries old_gob
            (forget_args args)
            t
            old
          ≡ some (old', r'))
        × Alike old' rf'
        × SameReply args.term r' r
  check_entries-Alike args t old rf rf' r a due f h =
      let ((old', r'), e) =
        ne_none-some (Append.check_entries old_gob (forget_args args) t old)
          (check_entries_returns args t old rf rf' r a f h) in
      let (like, same) =
        Way-agrees args t old old' rf rf' r r' a due (check_entries-Way args t rf rf' r a.base f h)
          e in
      (old', r', e, like, same)

  append_entries_agrees :
      (args : AppendEntriesArgs C) (t u : Tick) (old : Peer.Raft C) (rf rf' : Raft C)
      (r : AppendEntriesReply)
      → Alike old rf
      → 0 < length rf.log
      → append_entries gob args t u rf ≡ some (rf', r)
      → (old' : Peer.Raft C) × (r' : AppendEntriesReply) × (Append.append_entries old_gob
            (forget_args args)
            t
            u
            old
          ≡ some (old', r'))
        × Alike old' rf'
        × SameReply args.term r' r
  unfolding append_entries Append.append_entries adopt_leader_term
  append_entries_agrees args t u old rf rf' r a f h =
      let (adopted, long) = adopt_leader_term-Alike args.term t old rf a in
      elim (dec_lt args.term rf.current_term) [
        | yes late ↦ (
          old,
          record zero_reply { term = old.current_term },
          ground (arith, a.current_term),
          ground (arith, a),
          record {
            term = ground (arith, a);
            success = ground arith;
            conflict_term = ground arith;
            conflict_first_index = ground arith;
          },
        )
        | no due ↦ elim (dec_lt rf.current_term args.term) [
          | yes newer ↦
              let (old', r', e, like, answer) =
                check_entries-Alike args u (Append.adopt_leader_term old_gob args.term t old)
                  (adopt_leader_term gob args.term t rf) rf' r adopted (omega arith) (rw long f)
                  (ground arith) in
              (old', r', ground (arith, e, a.current_term), like, answer)
          | no same ↦
              let (old', r', e, like, answer) =
                check_entries-Alike args u old rf rf' r a (omega arith) f (ground arith) in
              (old', r', ground (arith, e, a.current_term), like, answer)
        ]
      ]

  -- On peers that are alike, each with its term, vote and log on disk, AppendEntries of
  -- Lab2_Raft/Part2C stores the same entries as that of Lab3_KV_Raft/PartB and replies the same to the
  -- leader, but for a term that is not above the request's. The peers stay alike, the earlier stage
  -- never committing more, and each has its term, vote and log on disk again.
  pub append_entries-Alike :
      (args : AppendEntriesArgs C) (t u : Tick) (old : Peer.Raft C) (rf rf' : Raft C)
      (r : AppendEntriesReply)
      → Twins gob old_gob old rf
      → 0 < length rf.log
      → append_entries gob args t u rf ≡ some (rf', r)
      → (old' : Peer.Raft C) × (r' : AppendEntriesReply) × (Append.append_entries old_gob
            (forget_args args)
            t
            u
            old
          ≡ some (old', r'))
        × Twins gob old_gob old' rf'
        × SameReply args.term r' r
  append_entries-Alike args t u old rf rf' r a f h =
      let (old', r', e, like, answer) = append_entries_agrees args t u old rf rf' r a.alike f h in
      (
        old',
        r',
        e,
        record {
          alike = like;
          saved =
              Keeps-IsSaved gob old_gob rf rf' (Quiet-Keeps gob (append args t u r h)).0 a.saved;
          old_saved =
              append_entries-IsOldSaved old_gob (forget_args args) t u old old' r' e a.old_saved;
        },
        answer,
      )
