-- ===== src/Raft/Consensus/Accepting.antt =====
-- The turns in which a peer receives entries of a leader, and acknowledges them.
pub mod Receiving
use mathlib.Core.Path.{subst}
use mit.Prelude.{
  ℕ, ◌+◌, ◌-◌, ◌≡◌, ◌≤◌, ◌<◌, inl, inr, some, List, arith, length, get_elem?, get_elem?_lt,
  get_elem?_le, refl, sym, ◌∙◌, ◌∷◌, ◌++◌, length-take, take, get_elem?-append_right, true,
  Option-cases,
}
use native.Mathlib.Decide.{dec_lt}
use mit.Raft.Types.{
  LogEntry, Raft, leader, follower, RequestVoteArgs, AppendEntriesArgs, AppendEntriesReply, Tick,
}
use mit.Raft.Gob.{Gob}
use mit.Raft.Local.{term_at, entry_at, sub_snapshot_index}
use mit.Raft.Append.{append_entries}
use mit.Raft.Append.Reply.{append_entries_agrees}
use mit.Raft.Append.Differs.{Differs, append_entries-Differs}
use mit.Raft.Append.Written.{Accepts, append_entries-Accepts}
use mit.Raft.Cluster.{Ballot, Has, update}
use mit.Raft.Cluster.Updates.{update-all, update_self}
use mit.Raft.Network.Prefix.{IsPrefix, Matching}
use mit.Raft.Network.Life.{Life}
use mit.Raft.Network.History.{Sent}
use mit.Raft.Network.Followers.{accepted_prefix}
use mit.Raft.Consensus.{Ack}
use mit.Raft.Consensus.Reigns.{Reign, Sound, Sound-more, Sound-prefix, Acked, Upto}
use mit.Raft.Consensus.Reigns.Common.{Sound-Matching, replaced-Upto}
use mit.Raft.Consensus.Quorum.{Quorate, Certified, complete}
use mit.Raft.Consensus.Growth.{grown}
use mit.Raft.Consensus.Steady.{steady}

module _ {C : Type 0} where
  -- The last index that a request reaches to.
  abbrev pub reach : AppendEntriesArgs C → ℕ
  reach args = args.prev_log_index + length args.entries

  reach_lt :
      (args : AppendEntriesArgs C) (h : List (LogEntry C)) → Sent args h → reach args < length h
  reach_lt args h s = elim (dec_lt 0 (length args.entries)) [
    | yes some_entries ↦
        let k = length args.entries - 1 in
        let (e, ae) = get_elem?_lt args.entries k (omega arith) in
        ground (arith, s.entries k e ae, get_elem?_le h (args.prev_log_index + 1 + k))
    | no no_entries ↦ ground (arith, s.at_prev, get_elem?_le h args.prev_log_index)
  ]

  -- A log that has the entries of a request by their terms, and its previous entry, has all of the log
  -- they come from up to there.
  pub reached :
      (args : AppendEntriesArgs C) (x h : List (LogEntry C)) (p : LogEntry C)
      → Sent args h
      → Matching x h
      → get_elem? x args.prev_log_index ≡ some p
      → p.term ≡ args.prev_log_term
      → ((k : ℕ) (e : LogEntry C)
          → get_elem? args.entries k ≡ some e
          → (a : LogEntry C) × (get_elem? x (args.prev_log_index + 1 + k) ≡ some a)
            × (a.term ≡ e.term))
      → (m : ℕ) → m ≤ reach args
      → get_elem? x m ≡ get_elem? h m
  reached args x h p s w at tp holds m le = elim (dec_lt 0 (length args.entries)) [
    | yes some_entries ↦
        let k = length args.entries - 1 in
        let (e, ae) = get_elem?_lt args.entries k (omega arith) in
        let (a, ax, ta) = holds k e ae in
        w (args.prev_log_index + 1 + k) a e ax (s.entries k e ae) ta m (omega arith)
    | no no_entries ↦
        w args.prev_log_index p s.common at s.at_prev (tp ∙ sym s.term) m (omega arith)
  ]

module _ {C : Type 0} (gob : Gob C) (n : ℕ) where
  module _ (peer : ℕ → Raft C) (ballots : List Ballot) (calls : List RequestVoteArgs)
      (rs : List (Reign C)) (acks : List Ack) (q : Quorate n peer ballots calls rs acks)
      (cast : (b : Ballot) → Has b ballots → b.term ≤ (peer b.voter).current_term) where
    module _ (i : ℕ) (args : AppendEntriesArgs C) (t u : Tick) (rf' : Raft C)
        (reply : AppendEntriesReply) (r : Reign C) (hr : Has r rs) (tr : r.term ≡ args.term)
        (s : Sent args r.log) (base : (peer i).last_included_index ≡ 0)
        (run : append_entries gob args t u (peer i) ≡ some (rf', reply)) where
      matching : Matching (peer i).log r.log
      matching = Sound-Matching rs _ _ (peer i).log r.log q.chain (q.logs i) (q.sound r hr).0

      written_at :
          Accepts gob args (peer i) rf'
          → (d : Differs (peer i).log args.entries (args.prev_log_index + 1))
          → get_elem? rf'.log (args.prev_log_index + 1 + d.offset) ≡ some d.entry
      written_at acc d =
          let kept : length (take (args.prev_log_index + 1) (peer i).log)
              ≡ args.prev_log_index + 1 =
            ground (
              arith,
              acc.wrote.within,
              base,
              length-take {0} (args.prev_log_index + 1) (peer i).log,
            ) in
          let log : rf'.log ≡ take (args.prev_log_index + 1) (peer i).log ++ args.entries =
            ground (arith, acc.wrote.log, base) in
          rw log (
            subst
              (λ z.
                get_elem? (take (args.prev_log_index + 1) (peer i).log ++ args.entries)
                  (z + d.offset)
                ≡ some d.entry)
              kept
              (get_elem?-append_right (take (args.prev_log_index + 1) (peer i).log) args.entries
                  d.offset
                ∙ d.at))

      -- A log that is written keeps what was acknowledged of other logs.
      written-kept :
          Accepts gob args (peer i) rf'
          → Differs (peer i).log args.entries (args.prev_log_index + 1)
          → IsPrefix rf'.log r.log
          → (peer i).current_term ≤ args.term
          → (a : Ack) → a.term ≤ (peer i).current_term
          → Acked rs a (peer i).log ((peer i).current_term + 1)
          → Acked rs a rf'.log (args.term + 1)
      written-kept acc d p le a la k = record {
        root = k.root;
        inside = k.inside;
        term = k.term;
        long = k.long;
        kept = λ j lj mid.
            replaced-Upto j (args.prev_log_index + 1 + d.offset) k.root.log r.log rf'.log
              (peer i).log d.entry (omega (arith, lj, k.long))
              (elim (dec_lt a.term args.term) [
                | yes later ↦ inl (mid r hr (omega (arith, tr)) (omega (arith, tr)))
                | no same ↦
                    elim (q.chain k.root r k.inside hr (k.term ∙ omega (arith, same, la, le, tr))) [
                      | inl p ↦ inl (λ j' e l at. p j' e at)
                      | inr p ↦ inr p
                    ]
              ])
              p (written_at acc d) (λ z. d.other d.entry z refl)
              (k.kept j lj (λ r' hr' lo hi. mid r' hr' lo (omega (arith, le))));
      }

      module _ (ok : reply.success ≡ true) (base' : rf'.last_included_index ≡ 0)
          (sound : Sound rs args.term rf'.log) where
        abbrev ack : Ack
        ack = record { voter = i; term = args.term; index = reach args }

        -- Up to where the request reaches, the log is the leader's.
        pub received-same : Upto (reach args) r.log rf'.log
        unfolding term_at entry_at sub_snapshot_index
        received-same =
            let (le, tm, prev, stored) =
              append_entries_agrees gob args t u (peer i) rf' reply run ok in
            let (p, at, tp) =
              elim (Option-cases (get_elem? rf'.log args.prev_log_index))
                as (λ _.
                  (p : LogEntry C) × (get_elem? rf'.log args.prev_log_index ≡ some p)
                  × (p.term ≡ args.prev_log_term)) [
                    | inl out ↦ absurd (
                        ground (
                          arith,
                          prev,
                          stored.before args.prev_log_index (omega arith),
                          base,
                          base',
                          out,
                        ))
                    | inr (p, at) ↦ (
                      p,
                      at,
                      ground (
                        arith,
                        prev,
                        stored.before args.prev_log_index (omega arith),
                        base,
                        base',
                        at,
                      ),
                    )
                  ] in
            let same =
              reached args rf'.log r.log p s
                (Sound-Matching rs _ _ rf'.log r.log q.chain sound (q.sound r hr).0) at tp
                (λ k e ae. elim (Option-cases (get_elem? rf'.log (args.prev_log_index + 1 + k))) [
                  | inl out ↦ absurd (ground (arith, stored.holds k e ae, base', out))
                  | inr (x, ax) ↦ (x, ax, ground (arith, stored.holds k e ae, base', ax))
                ]) in
            λ j e lj at'. same j lj ∙ at'

        -- What a peer acknowledges it has.
        new-Acked : (limit : ℕ) → Acked rs ack rf'.log limit
        new-Acked limit = record {
          root = r;
          inside = hr;
          term = tr;
          long = reach_lt args r.log s;
          kept = λ k lk mid j e lj. received-same j e (omega (arith, lj, lk));
        }

        ack-Acked :
            rf'.current_term ≡ args.term
            → (a : Ack) → ack ≡ a
            → (a.term ≤ (update peer i rf' a.voter).current_term)
              × Acked rs a
                  (update peer i rf' a.voter).log
                  ((update peer i rf' a.voter).current_term + 1)
        ack-Acked tm a e =
            subst
              (λ a.
                (a.term ≤ (update peer i rf' a.voter).current_term)
                × Acked rs a (update peer i rf' a.voter).log
                    ((update peer i rf' a.voter).current_term + 1))
              e (rw (update_self peer i rf') (omega (arith, tm), new-Acked (rf'.current_term + 1)))

        ack-late :
            (peer i).current_term ≤ args.term
            → (a : Ack) → ack ≡ a
            → (peer a.voter).current_term ≤ a.term
        ack-late le a e = subst (λ a. (peer a.voter).current_term ≤ a.term) e le
