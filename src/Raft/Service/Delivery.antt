-- ===== src/Raft/Service/Delivery.antt =====
-- applyEntries: what reaches the service.
use mathlib.Core.List.{append-nil, append_assoc}
use mit.Prelude.{
  ℕ, zero, suc, ◌+◌, ◌-◌, ◌≡◌, refl, ◌∙◌, ap, some, List, [], ◌∷◌, ◌++◌, arith, length, get_elem?,
  get_elem?_lt, take, drop, ◌<◌, ◌≤◌, ltb, lt→ltb, ◌==◌, false,
}
use mit.Raft.Types.{ApplyMsg, Raft, LogEntry}
use mit.Raft.Service.{apply_section, apply_loop, apply_entries}

drop-cons :
    {A : Type 0} (xs : List A) (k : ℕ) (x : A)
    → get_elem? xs k ≡ some x
    → drop k xs ≡ x ∷ drop (suc k) xs
drop-cons [] k x h = cc
drop-cons (y ∷ xs) zero x h = ground arith
drop-cons (y ∷ xs) (suc k) x h = drop-cons xs k x h

abbrev last : ℕ → ℕ → ℕ → ℕ
last zero applied commit = applied
last (suc n) applied commit = commit

last_lem : (n i commit : ℕ) → i + n ≡ commit → last n i commit ≡ commit
last_lem zero i commit h = omega arith
last_lem (suc n) i commit h = refl

last_pos : (n applied commit : ℕ) → 0 < n → last n applied commit ≡ commit
last_pos zero applied commit h = absurd (omega arith)
last_pos (suc n) applied commit h = refl

module _ {C : Type 0} where
  -- The messages for consecutive entries, the first of index `i`.
  abbrev pub messages : List (LogEntry C) → ℕ → List (ApplyMsg C)
  messages [] i = []
  messages (e ∷ es) i = ApplyMsg.valid e.command i e.term ∷ messages es (suc i)

  -- The state once `n` entries from `i` on have been sent, up to `commit`.
  abbrev delivered : ℕ → ℕ → ℕ → Raft C → Raft C
  delivered n i commit rf = record rf {
    last_applied = last n rf.last_applied commit;
    apply_ch = rf.apply_ch ++ messages (take n (drop (i - rf.last_included_index) rf.log)) i;
  }

  abbrev sent : ℕ → LogEntry C → Raft C → Raft C
  sent i e rf = record rf {
    last_applied = i;
    apply_ch = rf.apply_ch ++ ApplyMsg.valid e.command i e.term ∷ [];
  }

  apply_loop-suc :
      (fuel commit i : ℕ) (rf : Raft C) (e : LogEntry C)
      → i ≤ commit
      → rf.last_included_index < i
      → get_elem? rf.log (i - rf.last_included_index) ≡ some e
      → apply_loop (suc fuel) commit i rf ≡ apply_loop fuel commit (suc i) (sent i e rf)
  unfolding apply_loop
  apply_loop-suc fuel commit i rf e le above q = rw (open_test, apply_loop) (rw section refl)
    where
      open_test : ltb commit i ≡ false
      open_test = ground arith

      section : apply_section i rf ≡ some (sent i e rf, suc i)
      section = ground arith

  apply_loop-zero :
      (fuel commit i : ℕ) (rf : Raft C)
      → commit < i
      → apply_loop (suc fuel) commit i rf ≡ some (delivered 0 i commit rf)
  unfolding apply_loop
  apply_loop-zero fuel commit i rf lt = rw (lt→ltb commit i lt, apply_loop) (rw append-nil refl)

  delivered-suc :
      (n commit i : ℕ) (rf : Raft C) (e : LogEntry C)
      → i + n ≡ commit
      → rf.last_included_index < i
      → get_elem? rf.log (i - rf.last_included_index) ≡ some e
      → delivered n (suc i) commit (sent i e rf) ≡ delivered (suc n) i commit rf
  delivered-suc n commit i rf e le above q =
      let offset : suc i - rf.last_included_index ≡ suc (i - rf.last_included_index) =
        omega arith in
      rw
        (
          last_lem n i commit le,
          offset,
          drop-cons rf.log (i - rf.last_included_index) e q,
          append_assoc,
        )
        refl

  apply_loop_lem :
      (n fuel commit i : ℕ) (rf : Raft C)
      → i + n ≡ commit + 1
      → n < fuel
      → rf.last_included_index < i
      → commit < rf.last_included_index + length rf.log
      → apply_loop fuel commit i rf ≡ some (delivered n i commit rf)
  apply_loop_lem n zero commit i rf e lt above inside = absurd (omega arith)
  apply_loop_lem zero (suc fuel) commit i rf e lt above inside =
      apply_loop-zero fuel commit i rf (omega arith)
  apply_loop_lem (suc n) (suc fuel) commit i rf e lt above inside =
      let (x, q) = get_elem?_lt rf.log (i - rf.last_included_index) (omega arith) in
      apply_loop-suc fuel commit i rf x (omega arith) above q
      ∙ apply_loop_lem n fuel commit (suc i) (sent i x rf) (omega arith) (omega arith) (omega arith)
          inside
      ∙ ap some (delivered-suc n commit i rf x (omega arith) above q)

  -- A round of applyEntries with something to apply, on a log that reaches the commit index, sends
  -- the entries behind LastApplied up to CommitIndex, each once and in the order of the log, and ends
  -- with LastApplied at CommitIndex; nothing else changes.
  pub apply_entries_delivers :
      (rf : Raft C)
      → rf.last_included_index ≤ rf.last_applied
      → rf.last_applied < rf.commit_index
      → rf.commit_index < rf.last_included_index + length rf.log
      → apply_entries rf
        ≡ some (record rf {
          last_applied = rf.commit_index;
          apply_ch =
              rf.apply_ch
              ++ messages
                  (take
                    (rf.commit_index - rf.last_applied)
                    (drop (rf.last_applied + 1 - rf.last_included_index) rf.log))
                  (rf.last_applied + 1);
        })
  unfolding apply_entries
  apply_entries_delivers rf snap new inside =
      rw (last_applied_test, apply_entries)
        (apply_loop_lem (rf.commit_index - rf.last_applied) (rf.commit_index + 2) rf.commit_index
            (rf.last_applied + 1) rf (omega arith) (omega arith) (omega arith) inside
          ∙ rw
              (last_pos (rf.commit_index - rf.last_applied) rf.last_applied rf.commit_index
                (omega arith))
              refl)
    where
      last_applied_test : (rf.last_applied == rf.commit_index) ≡ false
      last_applied_test = ground arith
