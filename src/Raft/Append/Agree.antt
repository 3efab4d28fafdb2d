-- ===== src/Raft/Append/Agree.antt =====
-- The log after AppendEntries: with the entries of the leader where it accepts, and what it was
-- before where it refuses.
use mit.Prelude.{
  ℕ, zero, suc, ◌+◌, ◌-◌, ◌≡◌, refl, ◌∙◌, ◌≤◌, ◌<◌, Bool, true, false, if◌then◌else◌, some, List,
  [], ◌∷◌, ◌++◌, arith, length, get_elem?, take, length-take, get_elem?-take, get_elem?-append_left,
  get_elem?-append_right, >>=-eq-some,
}
use native.Mathlib.Nat.{add-zero, add-suc, suc-add}
use mathlib.Core.Path.{subst}
use mathlib.Core.Option.{some-injective}
use mit.Raft.Types.{Raft, LogEntry, AppendEntriesArgs}
use mit.Raft.Local.{entry_at, term_at}
use mit.Raft.Append.{is_match, replace_from, store_entries}

module _ {C : Type 0} where
  -- The entries stand in the log of `rf` from `next` on, by their terms.
  abbrev Holds : Raft C → ℕ → List (LogEntry C) → Type 0
  Holds rf next es =
      (i : ℕ) (e : LogEntry C) → get_elem? es i ≡ some e → term_at rf (next + i) ≡ some e.term

  entry_at_lem :
      (rf : Raft C) (j : ℕ)
      → rf.last_included_index ≤ j
      → entry_at rf j ≡ get_elem? rf.log (j - rf.last_included_index)
  unfolding entry_at
  entry_at_lem rf j h = ground arith

  term_at_of_entry :
      (rf : Raft C) (j : ℕ) (e : LogEntry C) → entry_at rf j ≡ some e → term_at rf j ≡ some e.term
  unfolding term_at
  term_at_of_entry rf j e h = rw h

  Holds-cons :
      (rf : Raft C) (next : ℕ) (x : LogEntry C) (es : List (LogEntry C))
      → term_at rf next ≡ some x.term
      → Holds rf (suc next) es
      → Holds rf next (x ∷ es)
  Holds-cons rf next x es t h zero e q = rw add-zero (ground arith)
  Holds-cons rf next x es t h (suc i) e q = rw (add-suc, ← suc-add) (h i e q)

  is_match-Holds :
      (rf : Raft C) (next : ℕ) (es : List (LogEntry C))
      → is_match rf next es ≡ some true
      → Holds rf next es
  unfolding is_match
  is_match-Holds rf next [] h = λ i e q. cc
  is_match-Holds rf next (x ∷ es) h =
      Holds-cons rf next x es (ground (arith, term_at rf next))
        (is_match-Holds rf (suc next) es (ground (arith, term_at rf next)))

  -- What a replacement that does not panic writes.
  record Replaced (rf rf' : Raft C) (next : ℕ) (es : List (LogEntry C)) : Type 0 where
    above : rf.last_included_index ≤ next
    within : next - rf.last_included_index ≤ length rf.log
    base : rf'.last_included_index ≡ rf.last_included_index
    written : rf'.log ≡ take (next - rf.last_included_index) rf.log ++ es

  replace_from-Replaced :
      (rf rf' : Raft C) (next : ℕ) (es : List (LogEntry C))
      → replace_from rf next es ≡ some rf'
      → Replaced rf rf' next es
  unfolding replace_from
  replace_from-Replaced rf rf' next es h = ground arith

  module _ {rf rf' : Raft C} {next : ℕ} {es : List (LogEntry C)} (w : Replaced rf rf' next es) where
    open w use {above, within, base, written}

    length-kept :
        length (take (next - rf.last_included_index) rf.log) ≡ next - rf.last_included_index
    length-kept = omega (arith, length-take {0} (next - rf.last_included_index) rf.log, within)

    Replaced-tail : (i : ℕ) → entry_at rf' (next + i) ≡ get_elem? es i
    Replaced-tail i =
        let offset : next + i - rf'.last_included_index
            ≡ length (take (next - rf.last_included_index) rf.log) + i =
          omega (arith, length-kept) in
        entry_at_lem rf' (next + i) (omega arith)
        ∙ rw (offset, written)
            (get_elem?-append_right (take (next - rf.last_included_index) rf.log) es i)

    Replaced-prefix : (j : ℕ) → j < next → entry_at rf' j ≡ entry_at rf j
    unfolding entry_at
    Replaced-prefix j lt = ground (
      arith,
      length-kept,
      get_elem?-append_left (take (next - rf.last_included_index) rf.log) es
          (j - rf.last_included_index),
      get_elem?-take (next - rf.last_included_index) rf.log (j - rf.last_included_index),
    )

  -- A run of steps 1 and 2 that does not panic leaves the entries in the log behind the leader's
  -- previous entry, by their terms, and all that stands before them as it was.
  pub record Stored (args : AppendEntriesArgs C) (rf rf' : Raft C) : Type 0 where
    pub holds : Holds rf' (args.prev_log_index + 1) args.entries
    pub before : (j : ℕ) → j ≤ args.prev_log_index → entry_at rf' j ≡ entry_at rf j

  Stored-choose :
      (args : AppendEntriesArgs C) (rf rf' : Raft C) (matched : Bool)
      → is_match rf (args.prev_log_index + 1) args.entries ≡ some matched
      → (if matched then some rf else replace_from rf (args.prev_log_index + 1) args.entries)
        ≡ some rf'
      → Stored args rf rf'
  Stored-choose args rf rf' true m h =
      subst (λ r. Stored args rf r) (some-injective rf rf' h)
        (record {
          holds = is_match-Holds rf (args.prev_log_index + 1) args.entries m;
          before = λ j le. refl;
        })
  Stored-choose args rf rf' false m h =
      let w = replace_from-Replaced rf rf' (args.prev_log_index + 1) args.entries h in
      record {
        holds =
            λ i e q. term_at_of_entry rf' (args.prev_log_index + 1 + i) e (Replaced-tail w i ∙ q);
        before = λ j le. Replaced-prefix w j (omega arith);
      }

  pub store_entries-Stored :
      (args : AppendEntriesArgs C) (rf rf' : Raft C)
      → store_entries args rf ≡ some rf'
      → Stored args rf rf'
  unfolding store_entries
  store_entries-Stored args rf rf' h =
      let (matched, m, rest) =
        >>=-eq-some (is_match rf (args.prev_log_index + 1) args.entries) _ h in
      Stored-choose args rf rf' matched m rest
