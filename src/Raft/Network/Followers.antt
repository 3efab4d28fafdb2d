-- ===== src/Raft/Network/Followers.antt =====
-- The sections in which a log stays, or takes entries of a request, keep the history of the logs.
use mathlib.Core.Path.{subst}
use mit.Prelude.{
  ℕ, ◌+◌, ◌≡◌, ◌<◌, inl, inr, some, List, ◌++◌, arith, length, get_elem?_le, get_elem?_lt,
  length-append, refl, sym, ◌∙◌, take, length-take,
}
use mit.Raft.Types.{LogEntry, candidate, leader, Raft, Tick, AppendEntriesArgs, AppendEntriesReply}
use mit.Raft.Gob.{Gob}
use mit.Raft.Local.{term_at, entry_at, sub_snapshot_index}
use mit.Raft.Append.{append_entries}
use mit.Raft.Append.Written.{Accepts, append_entries-Accepts, append_entries_base}
use mit.Raft.Steps.{append}
use mit.Raft.Steps.Monotone.{Quiet-Keeps}
use mit.Raft.Steps.Role.{Quiet-KeepsRole}
use mit.Raft.Cluster.{Has, update, Cluster}
use mit.Raft.Cluster.Invariant.{Inv}
use mit.Raft.Cluster.Updates.{update-all, update_self}
use mit.Raft.Network.{Network}
use mit.Raft.Network.Prefix.{IsPrefix, Matching, written_prefix}
use mit.Raft.Network.Life.{Life, KeepsRole-Life, Turned}
use mit.Raft.Network.History.{Known, Sent, IsPast, Won, Logs, winner_leads, more-Won}

module _ {C : Type 0} (gob : Gob C) (n : ℕ) where
  -- A candidate that becomes the leader of its term is the first winner of it.
  not-Won :
      (s u : Cluster C) (j : ℕ)
      → Inv gob n u
      → (t : Turned gob n s u) → t.rf.state ≡ leader
      → (s.peer t.i).state ≡ candidate
      → t.rf.current_term ≡ (s.peer t.i).current_term
      → Won n s j t.rf.current_term
      → ⊥
  not-Won s u j inv t l c tm w =
      let at : u.peer t.i ≡ t.rf = rw t.peer (update_self s.peer t.i t.rf) in
      let w' = more-Won gob n s u t.i t.rf j t.rf.current_term t.peer t.life t.ballots w in
      let same : j ≡ t.i = winner_leads gob n u t.i j inv (rw at l) (rw at w') in
      let past : IsPast (s.peer t.i) t.rf.current_term =
        subst (λ k. IsPast (s.peer k) t.rf.current_term) same w.past in
      ground (arith, past)

  -- A peer whose log stays.
  Turned-Known :
      (s u : Network C) (H : List (List (LogEntry C)))
      → Inv gob n u.cluster
      → (t : Turned gob n s.cluster u.cluster) → Logs n s H
      → Known t.rf H
  Turned-Known s u H inv t ls =
      let k = ls.known t.i in
      record {
        base = t.same.1 k.base;
        filled = ground (arith, k.filled, t.same.0);
        held = rw t.same.0 k.held;
        owned = λ l h hh p e q te. elim t.life.role [
          | inl f ↦ cc
          | inr (inl (c, lt)) ↦ cc
          | inr (inr (inl (r, tm))) ↦
              ground (arith, k.owned (sym r ∙ l) h hh p e q (te ∙ tm), t.same.0)
          | inr (inr (inr (l', c, tm))) ↦ elim (ls.born h hh p e q) [
            | inl z ↦ ground (arith, k.filled, t.same.0)
            | inr (j, w) ↦
                absurd (not-Won s.cluster u.cluster j inv t l c tm (subst (Won n s.cluster j) te w))
          ]
        ];
      }

  pub Turned-Logs :
      (s : Network C) (c : Cluster C) (H : List (List (LogEntry C)))
      → Inv gob n c
      → Turned gob n s.cluster c
      → Logs n s H
      → Logs n (record s { cluster = c }) H
  Turned-Logs s c H inv t ls = record {
    known = rw t.peer (
        update-all s.cluster.peer s.cluster.peer t.i (λ j r r'. Known r H) t.rf
          (Turned-Known s (record s { cluster = c }) H inv t ls) ls.known);
    matching = ls.matching;
    sent = ls.sent;
    born = λ h hh k e q. elim (ls.born h hh k e q) [
      | inl z ↦ inl z
      | inr (j, w) ↦ inr (j, more-Won gob n s.cluster c t.i t.rf j e.term t.peer t.life t.ballots w)
    ];
  }

  -- A peer of a network may change its record so that its log stays the beginning of one in the history.
  changed-Logs :
      (s : Network C) (i : ℕ) (rf : Raft C) (H : List (List (LogEntry C)))
      → Life gob n (s.cluster.peer i) rf
      → Known rf H
      → Logs n s H
      → Logs n (record s { cluster = record s.cluster { peer = update s.cluster.peer i rf } }) H
  changed-Logs s i rf H l k ls =
      let c : Cluster C = record s.cluster { peer = update s.cluster.peer i rf } in
      record {
        known = update-all s.cluster.peer s.cluster.peer i (λ j r r'. Known r H) rf k ls.known;
        matching = ls.matching;
        sent = ls.sent;
        born = λ h hh p e q. elim (ls.born h hh p e q) [
          | inl z ↦ inl z
          | inr (j, w) ↦ inr (j, more-Won gob n s.cluster c i rf j e.term refl l (λ b hb. hb) w)
        ];
      }

  -- A follower that writes the entries of a request has the beginning of the log they come from.
  pub accepted_prefix :
      (args : AppendEntriesArgs C) (rf rf' : Raft C) (g h : List (LogEntry C))
      → rf.last_included_index ≡ 0
      → IsPrefix rf.log g
      → Matching g h
      → Sent args h
      → Accepts gob args rf rf'
      → IsPrefix rf'.log h × (0 < length rf'.log)
  unfolding term_at entry_at sub_snapshot_index
  accepted_prefix args rf rf' g h z p m sent a =
      let (x, at) = get_elem?_lt rf.log args.prev_log_index (ground (arith, a.wrote.within)) in
      let t : x.term ≡ args.prev_log_term = ground (arith, a.common) in
      let log : rf'.log ≡ take (args.prev_log_index + 1) rf.log ++ args.entries =
        ground (arith, a.wrote.log) in
      (
        rw log (
            written_prefix rf.log g h args.entries args.prev_log_index x sent.common p m at
              sent.at_prev (t ∙ sym sent.term) sent.entries),
        ground (
          arith,
          log,
          length-append {0} (take (args.prev_log_index + 1) rf.log) args.entries,
          length-take {0} (args.prev_log_index + 1) rf.log,
          get_elem?_le rf.log args.prev_log_index,
        ),
      )

  pub receive-Logs :
      (s : Network C) (i : ℕ) (args : AppendEntriesArgs C) (t u : Tick) (rf : Raft C)
      (reply : AppendEntriesReply) (H : List (List (LogEntry C)))
      → Has args s.pool
      → append_entries gob args t u (s.cluster.peer i) ≡ some (rf, reply)
      → Logs n s H
      → Logs n (record s { cluster = record s.cluster { peer = update s.cluster.peer i rf } }) H
  receive-Logs s i args t u rf reply H sent e ls =
      let q = append args t u reply e in
      let role = Quiet-KeepsRole gob q in
      let k = ls.known i in
      let base : rf.last_included_index ≡ 0 =
        append_entries_base gob args t u (s.cluster.peer i) rf reply e ∙ k.base in
      changed-Logs s i rf H (KeepsRole-Life gob n (s.cluster.peer i) rf (Quiet-Keeps gob q).0 role)
        (elim (append_entries-Accepts gob args t u (s.cluster.peer i) rf reply e) [
          | inl same ↦ record {
            base = base;
            filled = ground (arith, k.filled, same);
            held = rw same k.held;
            owned = λ l h hh p x a te. elim role [
              | inl f ↦ cc
              | inr (r, tm) ↦ ground (arith, k.owned (sym r ∙ l) h hh p x a (te ∙ tm), same)
            ];
          }
          | inr a ↦
              let (h, hh, m) = ls.sent args sent in
              let (g, hg, pg) = k.held in
              let w =
                accepted_prefix args (s.cluster.peer i) rf g h k.base pg (ls.matching g h hg hh) m
                  a in
              record { base = base; filled = w.1; held = (h, hh, w.0); owned = λ l. cc }
        ])
        ls
