-- ===== src/Raft/Replicate/Below.antt =====
-- A refusal whose conflict lies below the leader's snapshot.
use mit.Prelude.{
  ℕ, zero, suc, ◌+◌, ◌-◌, ◌≡◌, ◌≢◌, ◌≤◌, ◌<◌, false, none, some, List, arith, length, get_elem?,
  refl, get_elem?_lt, ne_none-some,
}
use native.Mathlib.Decide.{dec_lt}
use mit.Raft.Types.{Raft, LogEntry, Tick, AppendEntriesArgs, AppendEntriesReply}
use mit.Raft.Gob.{Gob}
use mit.Raft.Local.{term_at, last_log_index}
use mit.Raft.Append.{
  conflict_start, conflict_reply, is_consistent, check_entries, adopt_leader_term, append_entries,
}
use mit.Raft.Append.Total.{conflict_start_total}
use mit.Raft.Replicate.{get_next_index, handle_refusal}

module _ {C : Type 0} where
  conflict_start-bound :
      (log : List (LogEntry C)) (t p k : ℕ) → conflict_start log t p ≡ some k → k ≤ p
  unfolding conflict_start
  conflict_start-bound log t zero k h = ground arith
  conflict_start-bound log t (suc p) k h = ground (arith, conflict_start-bound log t p k)

  -- The scan for the first entry of a term passes all that have it.
  conflict_start-le :
      (log : List (LogEntry C)) (t j p k : ℕ)
      → ((m : ℕ) (e : LogEntry C) → j ≤ m → m < p → get_elem? log m ≡ some e → e.term ≡ t)
      → j ≤ p
      → p ≤ length log
      → conflict_start log t p ≡ some k
      → k ≤ j
  unfolding conflict_start
  conflict_start-le log t j zero k all le inside h = ground arith
  conflict_start-le log t j (suc p) k all le inside h = elim (dec_lt p j) [
    | yes first ↦
        let (e, q) = get_elem?_lt log p (omega arith) in
        ground (arith, conflict_start-bound log t p k)
    | no more ↦
        let (e, q) = get_elem?_lt log p (omega arith) in
        ground (
          arith,
          all p e (omega arith) (omega arith) q,
          conflict_start-le log t j p k (λ m x lo hi r. all m x lo (omega arith) r) (omega arith)
              (omega arith),
        )
  ]

  -- A run of entries of another term than the leader's: those from `j` up to the one before the request.
  pub record IsAstray (args : AppendEntriesArgs C) (f : Raft C) (j old : ℕ) : Type 0 where
    pub above : f.last_included_index ≤ j
    pub reaches : j ≤ args.prev_log_index
    pub inside : args.prev_log_index < f.last_included_index + length f.log
    pub terms : (m : ℕ) → j ≤ m → m ≤ args.prev_log_index → term_at f m ≡ some old
    pub other : old ≢ args.prev_log_term

  -- The refusal of a follower names the first entry of the run, or one before it.
  conflict_reply_below :
      (args : AppendEntriesArgs C) (f : Raft C) (j old : ℕ)
      → IsAstray args f j old
      → (reply : AppendEntriesReply) × (conflict_reply args f ≡ some reply)
        × (reply.success ≡ false)
        × (reply.term ≡ f.current_term)
        × (reply.conflict_term ≡ old)
        × (reply.conflict_first_index ≤ j)
  unfolding conflict_reply term_at
  conflict_reply_below args f j old a =
      let p = args.prev_log_index - f.last_included_index in
      let (k, q) =
        ne_none-some (conflict_start f.log old p)
          (conflict_start_total f.log old p (omega (arith, a.inside))) in
      let low : k ≤ j - f.last_included_index =
        conflict_start-le f.log old (j - f.last_included_index) p k
          (λ m e lo hi r. ground (
            arith,
            a.terms (m + f.last_included_index) (omega (arith, a.above, lo))
                (omega (arith, a.above, hi)),
            r,
          ))
          (omega (arith, a.above, a.reaches)) (omega (arith, a.inside)) q in
      (
        record {
          term = f.current_term;
          conflict_term = old;
          conflict_first_index = k + f.last_included_index;
          success = false;
        },
        ground (
          arith,
          a.terms args.prev_log_index a.reaches (omega arith),
          q,
          a.inside,
          a.above,
          a.reaches,
        ),
        refl,
        refl,
        refl,
        omega (arith, low, a.above),
      )

module _ {C : Type 0} (gob : Gob C) where
  -- A request that goes astray is refused with what conflict_reply says.
  check_entries_refuses :
      (args : AppendEntriesArgs C) (u : Tick) (f : Raft C) (j old : ℕ) (reply : AppendEntriesReply)
      → IsAstray args f j old
      → conflict_reply args f ≡ some reply
      → check_entries gob args u f ≡ some (f, reply)
  unfolding check_entries is_consistent last_log_index
  check_entries_refuses args u f j old reply a h = ground (
    arith,
    a.above,
    a.reaches,
    a.inside,
    a.other,
    a.terms args.prev_log_index a.reaches (omega arith),
  )

  adopted-IsAstray :
      (args : AppendEntriesArgs C) (t : Tick) (f : Raft C) (j old : ℕ)
      → IsAstray args f j old
      → IsAstray args (adopt_leader_term gob args.term t f) j old
  unfolding adopt_leader_term term_at
  adopted-IsAstray args t f j old a = record {
    above = ground (arith, a.above);
    reaches = a.reaches;
    inside = ground (arith, a.inside);
    terms = λ m lo hi. ground (arith, a.terms m lo hi);
    other = a.other;
  }

  append_entries_refuses_low :
      (args : AppendEntriesArgs C) (t u : Tick) (f : Raft C) (j old : ℕ)
      → f.current_term ≤ args.term
      → IsAstray args f j old
      → (f' : Raft C) × (reply : AppendEntriesReply) × (append_entries gob args t u f
          ≡ some (f', reply))
        × (reply.success ≡ false)
        × (reply.term ≡ args.term)
        × (reply.conflict_term ≡ old)
        × (reply.conflict_first_index ≤ j)
  unfolding append_entries adopt_leader_term
  append_entries_refuses_low args t u f j old due a = elim (dec_lt f.current_term args.term) [
    | yes newer ↦
        let g = adopt_leader_term gob args.term t f in
        let b = adopted-IsAstray args t f j old a in
        let (reply, e, no', tm, ct, low) = conflict_reply_below args g j old b in
        (
          g,
          reply,
          ground (arith, check_entries_refuses args u g j old reply b e),
          no',
          ground (arith, tm),
          ct,
          low,
        )
    | no same ↦
        let (reply, e, no', tm, ct, low) = conflict_reply_below args f j old a in
        (
          f,
          reply,
          ground (arith, check_entries_refuses args u f j old reply a e),
          no',
          omega (arith, tm),
          ct,
          low,
        )
  ]

  -- A conflict below the snapshot. If a follower's entries from an index `j` below the leader's snapshot
  -- up to the one before the request are all of one term above 0, other than the leader's, then the
  -- follower refuses the request, and the leader panics in getNextIndex when it handles the refusal.
  pub low_conflict_panics :
      (args : AppendEntriesArgs C) (t u : Tick) (f rf : Raft C) (i next j old : ℕ)
      → f.current_term ≤ args.term
      → IsAstray args f j old
      → 0 < old
      → j < rf.last_included_index
      → (f' : Raft C) × (reply : AppendEntriesReply) × (append_entries gob args t u f
          ≡ some (f', reply))
        × (reply.success ≡ false)
        × (reply.term ≡ args.term)
        × (handle_refusal gob i args next reply rf ≡ none)
  unfolding handle_refusal get_next_index
  low_conflict_panics args t u f rf i next j old due a pos below =
      let (f', reply, e, no', tm, ct, low) = append_entries_refuses_low args t u f j old due a in
      (f', reply, e, no', tm, ground (arith, tm, ct, low))
