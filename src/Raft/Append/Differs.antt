-- ===== src/Raft/Append/Differs.antt =====
-- Where AppendEntries writes, the log differed from the entries of the request.
use mit.Prelude.{
  ℕ, suc, ◌+◌, ◌≡◌, ◌≢◌, ◌⊎◌, inl, inr, some, false, Bool-cases, Option-cases, List, [], ◌∷◌, arith,
  get_elem?, get_elem?_le, >>=-eq-some, refl, sym, ◌==◌,
}
use native.Mathlib.Nat.{add-zero, add-suc, suc-add}
use mit.Raft.Types.{LogEntry, follower, Raft, Tick, AppendEntriesArgs, AppendEntriesReply}
use mit.Raft.Gob.{Gob}
use mit.Raft.Local.{term_at, switch_to, entry_at, sub_snapshot_index, last_log_index}
use mit.Raft.Append.{
  is_match, store_entries, accept_entries, check_entries, is_consistent, adopt_leader_term,
  append_entries,
}
use mit.Raft.Append.Written.{finish_append_log}

module _ {C : Type 0} where
  -- From index `p` on, the log does not go on with these entries.
  pub record Differs (log es : List (LogEntry C)) (p : ℕ) : Type 0 where
    pub offset : ℕ
    pub entry : LogEntry C
    pub at : get_elem? es offset ≡ some entry
    pub other : (x : LogEntry C) → get_elem? log (p + offset) ≡ some x → x.term ≢ entry.term

  is_match-Differs :
      (rf : Raft C) (next : ℕ) (es : List (LogEntry C))
      → rf.last_included_index ≡ 0
      → is_match rf next es ≡ some false
      → Differs rf.log es next
  unfolding is_match last_log_index term_at entry_at sub_snapshot_index
  is_match-Differs rf next [] z h = absurd (ground arith)
  is_match-Differs rf next (e ∷ es) z h = elim (Option-cases (get_elem? rf.log next)) [
    | inl out ↦ record {
      offset = 0;
      entry = e;
      at = refl;
      other = λ y q. ground (arith, add-zero next, q, out);
    }
    | inr (x, at) ↦ elim (Bool-cases (x.term == e.term)) [
      | inl same ↦
          let d =
            is_match-Differs rf (suc next) es z (ground (arith, at, get_elem?_le rf.log next)) in
          record {
            offset = suc d.offset;
            entry = d.entry;
            at = d.at;
            other = λ y q. d.other y (rw (suc-add, ← add-suc) q);
          }
      | inr different ↦ record {
        offset = 0;
        entry = e;
        at = refl;
        other = λ y q t. ground (arith, add-zero next, at, q);
      }
    ]
  ]

  store_entries-Differs :
      (args : AppendEntriesArgs C) (rf rf' : Raft C)
      → rf.last_included_index ≡ 0
      → store_entries args rf ≡ some rf'
      → (rf'.log ≡ rf.log) ⊎ Differs rf.log args.entries (args.prev_log_index + 1)
  unfolding store_entries
  store_entries-Differs args rf rf' z h =
      let (matched, m, rest) =
        >>=-eq-some (is_match rf (args.prev_log_index + 1) args.entries) _ h in
      elim (Bool-cases matched) [
        | inl yes' ↦ inl (ground arith)
        | inr no' ↦
            inr (is_match-Differs rf (args.prev_log_index + 1) args.entries z (rw (sym no') m))
      ]

module _ {C : Type 0} (gob : Gob C) where
  accept_entries-Differs :
      (args : AppendEntriesArgs C) (t : Tick) (rf rf' : Raft C) (reply : AppendEntriesReply)
      → rf.last_included_index ≡ 0
      → accept_entries gob args t rf ≡ some (rf', reply)
      → (rf'.log ≡ rf.log) ⊎ Differs rf.log args.entries (args.prev_log_index + 1)
  unfolding accept_entries switch_to
  accept_entries-Differs args t rf rf' reply z h =
      let (rf₁, stored, done) = >>=-eq-some (store_entries args (switch_to follower rf)) _ h in
      elim (store_entries-Differs args (switch_to follower rf) rf₁ z stored) [
        | inl same ↦ inl (ground (arith, same, finish_append_log gob args t rf₁))
        | inr d ↦ inr d
      ]

  check_entries-Differs :
      (args : AppendEntriesArgs C) (t : Tick) (rf rf' : Raft C) (reply : AppendEntriesReply)
      → rf.last_included_index ≡ 0
      → check_entries gob args t rf ≡ some (rf', reply)
      → (rf'.log ≡ rf.log) ⊎ Differs rf.log args.entries (args.prev_log_index + 1)
  unfolding check_entries is_consistent
  check_entries-Differs args t rf rf' reply z h =
      ground (arith, accept_entries-Differs args t rf rf' reply)

  pub append_entries-Differs :
      (args : AppendEntriesArgs C) (t u : Tick) (rf rf' : Raft C) (reply : AppendEntriesReply)
      → rf.last_included_index ≡ 0
      → append_entries gob args t u rf ≡ some (rf', reply)
      → (rf'.log ≡ rf.log) ⊎ Differs rf.log args.entries (args.prev_log_index + 1)
  unfolding append_entries adopt_leader_term
  append_entries-Differs args t u rf rf' reply z h = ground (
    arith,
    check_entries-Differs args u rf rf' reply,
    check_entries-Differs args u (adopt_leader_term gob args.term t rf) rf' reply,
  )
