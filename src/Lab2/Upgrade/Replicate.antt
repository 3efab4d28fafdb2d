-- ===== src/Lab2/Upgrade/Replicate.antt =====
-- The leader's side in both stages.
use mit.Prelude.{
  ℕ, zero, suc, ◌+◌, ◌≡◌, ◌≢◌, ne_none-some, sym, refl, ◌≤◌, ◌<◌, none, some, List, [], ◌∷◌, ◌++◌,
  arith, length, length-append, get_elem?_lt, get_elem?_le, map, slice, take,
}
use mit.Raft.Types.{Raft, LogEntry, AppendEntriesArgs, AppendEntriesReply}
use mit.Raft.Gob.{Gob}
use mit.Raft.Local
use mit.Raft.Replicate.{
  Message, Round, Outcome, entries_between, prepare, handle_success, get_next_index,
}
use mit.Raft.Replicate.Commit.{prepare_sends_log}
use mit.Raft.Replicate.Unmatched.{IsUnmatched, get_next_index_unmatched}
use mit.Raft.Append.Total.{term_at_total}
use mit.Raft.Service.{start}
use mit.Lab2.Peer
use mit.Lab2.Replicate
use mit.Lab2.Service
use mit.Lab2.Upgrade.{
  Alike, Alike-length, Alike-term_at, forget, length-map, get_elem?-map, map-append, map-take,
  map-drop,
}
use mit.Lab2.Upgrade.Append.{forget_args}

module _ {C : Type 0} where
  scan_back_none :
      (l : List (LogEntry C)) (t k : ℕ)
      → k < length l
      → IsUnmatched l t (suc k)
      → Replicate.scan_back (map forget l) t k ≡ some 0
  unfolding Replicate.scan_back
  scan_back_none l t zero lt u = refl
  scan_back_none l t (suc k) lt u =
      let (e, q) = get_elem?_lt l (suc k) lt in
      ground (
        arith,
        scan_back_none l t k (omega arith) (λ j x m. u j x (omega arith)),
        get_elem?-map l (suc k),
        u (suc k) e (omega arith) q,
      )

  -- On peers that are alike, a refusal with a term of which the leader has no entry up to the conflict,
  -- where its own entry is of no lower term, sends the leader of Lab2_Raft/Part2C back to the conflict,
  -- and that of Lab3_KV_Raft/PartB to index 0, below its first entry.
  unmatched_term_differs :
      (reply : AppendEntriesReply) (next t : ℕ) (old : Peer.Raft C) (rf : Raft C)
      → Alike old rf
      → reply.conflict_term ≢ 0
      → Local.term_at rf reply.conflict_first_index ≡ some t
      → reply.conflict_term ≤ t
      → IsUnmatched rf.log reply.conflict_term (suc reply.conflict_first_index)
      → (Replicate.get_next_index reply next old ≡ some reply.conflict_first_index)
        × (get_next_index reply next rf ≡ some 0)
  unfolding Replicate.get_next_index Replicate.scan Local.term_at
  unmatched_term_differs reply next t old rf a ne at le u =
      let c = reply.conflict_first_index in
      let within : c < length rf.log = ground (arith, at, a.base, get_elem?_le rf.log c) in
      (
        ground (
          arith,
          at,
          a.log,
          Alike-term_at old rf c a,
          scan_back_none rf.log reply.conflict_term c within u,
        ),
        ground (
          arith,
          a.base,
          get_next_index_unmatched reply next t rf ne (omega (arith, a.base)) at le
              (λ j e lt. u j e (omega (arith, a.base))),
        ),
      )

  module _ (old : Peer.Raft C) (rf : Raft C) (a : Alike old rf) where
    entries_between_alike :
        (spare : List (LogEntry C)) (next index : ℕ) (es : List (LogEntry C))
        → entries_between spare rf next index ≡ some es
        → Replicate.entries_between (map forget spare) old next index ≡ some (map forget es)
    unfolding entries_between Replicate.entries_between Local.sub_snapshot_index slice
    entries_between_alike spare next index es h =
        let array = rf.log ++ spare in
        let same : old.log ++ map forget spare ≡ map forget array =
          rw a.log (sym (map-append rf.log spare)) in
        let taken = map-take (index + 1) array in
        let dropped = map-drop next (take (index + 1) array) in
        ground (arith, a.base, same, length-map array, taken, dropped)

    -- Where the later stage sends entries, the earlier one sends the same, if its array has the same behind
    -- the log.
    pub prepare_alike :
        (spare : List (LogEntry C)) (index term commit i next : ℕ) (args : AppendEntriesArgs C)
        → prepare spare index term commit i rf ≡ some (Message.append args next)
        → Replicate.prepare (map forget spare) index term commit i old
          ≡ some (forget_args args, next)
    unfolding prepare Replicate.prepare
    prepare_alike spare index term commit i zero args h =
        absurd (ground (arith, prepare_sends_log spare index term commit i 0 rf args h))
    prepare_alike spare index term commit i (suc prev) args h =
        let (above, at_next, same_prev, at_prev, lc, tm, count, chunk) =
          prepare_sends_log spare index term commit i (suc prev) rf args h in
        let sent : entries_between spare rf (suc prev) index ≡ some args.entries = ground arith in
        let same = entries_between_alike spare (suc prev) index args.entries sent in
        ground (arith, a.next_index, a.me, at_next, Alike-term_at old rf prev a, same)

    handle_success_agrees :
        (i index : ℕ) (r r' s' : Round) (o p : Outcome) (old' : Peer.Raft C) (rf' : Raft C)
        → handle_success i index r rf ≡ some (rf', r', o)
        → Replicate.handle_success i index r old ≡ some (old', s', p)
        → Alike old' rf' × (s' ≡ r')
    unfolding handle_success Replicate.handle_success
    handle_success_agrees i index r r' s' o p old' rf' h h' = (
      ground (arith, a, Alike-term_at old rf index a),
      ground (arith, a, Alike-term_at old rf index a),
    )

    handle_success_returns :
        (i index : ℕ) (r r' : Round) (o : Outcome) (rf' : Raft C)
        → index < length rf.log
        → handle_success i index r rf ≡ some (rf', r', o)
        → Replicate.handle_success i index r old ≢ none
    unfolding handle_success Replicate.handle_success
    handle_success_returns i index r r' o rf' lt h =
        let (t, q) = term_at_total rf index (omega (arith, a.base)) (omega (arith, a.base)) in
        ground (arith, a, Alike-term_at old rf index a, q)

    -- A success, of a request up to an entry that the leader has, is counted alike in both stages, and the
    -- peers stay alike.
    handle_success-Alike :
        (i index : ℕ) (r r' : Round) (o : Outcome) (rf' : Raft C)
        → index < length rf.log
        → handle_success i index r rf ≡ some (rf', r', o)
        → (old' : Peer.Raft C) × (p : Outcome) × (Replicate.handle_success i index r old
            ≡ some (old', r', p))
          × Alike old' rf'
    handle_success-Alike i index r r' o rf' lt h =
        let ((old', s', p), e) =
          ne_none-some (Replicate.handle_success i index r old)
            (handle_success_returns i index r r' o rf' lt h) in
        let (alike, same) = handle_success_agrees i index r r' s' o p old' rf' h e in
        (old', p, rw (sym same) e, alike)

  module _ (gob : Gob C) (old_gob : Peer.StateGob C) where
    -- Start gives the same index, term and leader flag in both stages, and leaves peers that are alike.
    start-Alike :
        (command : C) (now : ℕ) (old : Peer.Raft C) (rf : Raft C)
        → Alike old rf
        → let (old', i, t, l) = Service.start old_gob command now old in
          let (rf', index, term, is_leader) = start gob command now rf in
          Alike old' rf' × (i ≡ index) × (t ≡ term) × (l ≡ is_leader)
    unfolding Service.start start
    start-Alike command now old rf a =
        let entry : LogEntry C = record {
          command = some command;
          term = rf.current_term;
          index = length rf.log + rf.last_included_index;
        } in
        let old_entry : Peer.LogEntry C = record {
          command = some command;
          term = old.current_term;
        } in
        let longer = map-append rf.log (entry ∷ []) in
        (
          ground (arith, a, longer),
          ground (
            arith,
            a.base,
            a.state,
            Alike-length old rf a,
            length-append {0} old.log (old_entry ∷ []),
          ),
          ground (arith, a),
          ground (arith, a),
        )
