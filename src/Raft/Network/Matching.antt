-- ===== src/Raft/Network/Matching.antt =====
-- The events of a network keep the history of its logs, and so logs match.
use mathlib.Core.Path.{subst}
use mit.Prelude.{
  ℕ, ◌+◌, ◌≡◌, ◌≤◌, ◌<◌, inl, inr, some, none, List, [], ◌∷◌, arith, length, get_elem?,
  get_elem?_le, get_elem?_lt, refl, sym, ap, ◌∙◌,
}
use mit.Raft.Types.{LogEntry, leader, follower, Raft, Tick, AppendEntriesArgs}
use mit.Raft.Gob.{Gob}
use mit.Raft.Local.{term_at, entry_at, sub_snapshot_index}
use mit.Raft.Replicate.{Message, prepare}
use mit.Raft.Replicate.Commit.{prepare_sends_log}
use mit.Raft.Service.{append_command, make}
use mit.Raft.Steps.{append, command}
use mit.Raft.Steps.Monotone.{Quiet-Keeps}
use mit.Raft.Steps.Role.{Quiet-KeepsRole}
use mit.Raft.Cluster.{Has, update, quiet, IsFresh}
use mit.Raft.Cluster.Safety.{fresh-Inv}
use mit.Raft.Cluster.Invariant.{Inv, Move-Inv}
use mit.Raft.Network.{Network, Event, still, send, receive, submit, Trace, start, later}
use mit.Raft.Network.Prefix.{IsPrefix, IsPrefix-Matching}
use mit.Raft.Network.Life.{KeepsRole-Life, Move-Turned}
use mit.Raft.Network.History.{Sent, Logs}
use mit.Raft.Network.Followers.{Turned-Logs, receive-Logs}
use mit.Raft.Network.Leaders.{longer-Logs}

module _ {C : Type 0} where
  -- A request carries entries of the sender's log.
  pub prepared-Sent :
      (spare : List (LogEntry C)) (index term commit to next : ℕ) (rf : Raft C)
      (args : AppendEntriesArgs C) (h : List (LogEntry C))
      → index < rf.last_included_index + length rf.log
      → rf.last_included_index ≡ 0
      → IsPrefix rf.log h
      → prepare spare index term commit to rf ≡ some (Message.append args next)
      → Sent args h
  unfolding term_at entry_at sub_snapshot_index
  prepared-Sent spare index term commit to next rf args h reaches z p e =
      let (above, at_next, prev, at, lc, tm, count, same) =
        prepare_sends_log spare index term commit to next rf args e in
      let within : args.prev_log_index < length rf.log =
        ground (arith, at, get_elem?_le rf.log args.prev_log_index) in
      let (x, found) = get_elem?_lt rf.log args.prev_log_index within in
      record {
        common = x;
        at_prev = p args.prev_log_index x found;
        term = ground (arith, at);
        entries = λ k y q.
            ground
              (arith, same reaches k, count, p (next + k) y, get_elem?_le args.entries k, prev);
      }

  send-Logs :
      (n : ℕ) (s : Network C) (i : ℕ) (spare : List (LogEntry C)) (index term commit to next : ℕ)
      (args : AppendEntriesArgs C) (H : List (List (LogEntry C)))
      → index < (s.cluster.peer i).last_included_index + length (s.cluster.peer i).log
      → prepare spare index term commit to (s.cluster.peer i) ≡ some (Message.append args next)
      → Logs n s H
      → Logs n (record s { pool = args ∷ s.pool }) H
  send-Logs n s i spare index term commit to next args H reaches e ls = record {
    known = ls.known;
    matching = ls.matching;
    sent = λ a m. elim m [
      | inl same ↦
          let (h, hh, p) = (ls.known i).held in
          (
            h,
            hh,
            subst (λ b. Sent b h) same
                (prepared-Sent spare index term commit to next (s.cluster.peer i) args h reaches
                  (ls.known i).base p e),
          )
      | inr old ↦ ls.sent a old
    ];
    born = ls.born;
  }

module _ {C : Type 0} (gob : Gob C) (n : ℕ) where
  submit-Logs :
      (s : Network C) (i : ℕ) (c : C) (now : ℕ) (H : List (List (LogEntry C)))
      → Inv gob n s.cluster
      → (s.cluster.peer i).state ≡ leader
      → Logs n s H
      → (H' : List (List (LogEntry C))) × Logs n
          (record s {
            cluster = record s.cluster {
              peer = update s.cluster.peer i (append_command gob c now (s.cluster.peer i)).0;
            };
          })
          H'
  unfolding append_command
  submit-Logs s i c now H inv l ls =
      let rf = s.cluster.peer i in
      let q = command c now refl in
      (
        _,
        longer-Logs gob n s i H _ ls inv l refl (append_command gob c now rf).0 refl
            (ls.known i).base refl
            (KeepsRole-Life gob n rf (append_command gob c now rf).0 (Quiet-Keeps gob q).0
              (Quiet-KeepsRole gob q)),
      )

  pub record Safe (s : Network C) : Type 0 where
    pub elections : Inv gob n s.cluster
    pub history : List (List (LogEntry C))
    pub logs : Logs n s history

  pub Event-Safe : {s u : Network C} → Event gob n s u → Safe s → Safe u
  Event-Safe {s} (still {c} m q) safe =
      let inv = Move-Inv gob n m safe.elections in
      record {
        elections = inv;
        history = safe.history;
        logs =
            Turned-Logs gob n s c safe.history inv
              (Move-Turned gob n m safe.elections.peers.durable q) safe.logs;
      }
  Event-Safe {s} (send i spare index term commit to {args} {next} reaches e) safe = record {
    elections = safe.elections;
    history = safe.history;
    logs = send-Logs n s i spare index term commit to next args safe.history reaches e safe.logs;
  }
  Event-Safe {s} (receive i args t u {rf} {reply} h e) safe = record {
    elections = Move-Inv gob n (quiet i (append args t u reply e)) safe.elections;
    history = safe.history;
    logs = receive-Logs gob n s i args t u rf reply safe.history h e safe.logs;
  }
  Event-Safe {s} (submit i c now l) safe =
      let new = submit-Logs s i c now safe.history safe.elections l safe.logs in
      record {
        elections = Move-Inv gob n (quiet i (command c now refl)) safe.elections;
        history = new.0;
        logs = new.1;
      }

  Trace-Safe : {s u : Network C} → Trace gob n s u → Safe s → Safe u
  Trace-Safe start safe = safe
  Trace-Safe (later r e) safe = Event-Safe e (Trace-Safe r safe)

  abbrev placeholder : LogEntry C
  placeholder = record { command = none; term = 0; index = 0 }

  pub make-log :
      (i : ℕ) (t : Tick) (rf : Raft C)
      → make gob n i (record { raftstate = []; snapshot = [] }) t ≡ some rf
      → (rf.log ≡ placeholder ∷ []) × (rf.last_included_index ≡ 0) × (rf.state ≡ follower)
  unfolding make
  make-log i t rf h = (ground arith, ground arith, ground arith)

  pub fresh-Safe : (s : Network C) → IsFresh gob n s.cluster → s.pool ≡ [] → Safe s
  fresh-Safe s f empty = record {
    elections = fresh-Inv gob n s.cluster f;
    history = (placeholder ∷ []) ∷ [];
    logs = record {
      known = λ i.
          let (log, base, role) = make-log i (f.made i).0 (s.cluster.peer i) (f.made i).1 in
          record {
            base = base;
            filled = ground (arith, log);
            held = (placeholder ∷ [], inl refl, λ k e q. rw (sym log) q);
            owned = λ l h hh k e q t. cc;
          };
      matching = λ h h' m m' k e e' q q' t j le. elim m [
        | inl a ↦ elim m' [ inl b ↦ ap (λ g. get_elem? g j) (sym a ∙ b) | inr o ↦ elim o [ ] ]
        | inr o ↦ elim o [ ]
      ];
      sent = λ args m. elim (subst (Has args) empty m) [ ];
      born =
          λ h m k e q. elim m [ inl a ↦ ground (arith, a, get_elem?_le h k) | inr o ↦ elim o [ ] ];
    };
  }

  -- Log matching. In any run of a network that starts with empty disks, without snapshots, with any
  -- loss, delay, repetition and reordering of requests and any crashes, where each request is built by
  -- a peer whose log reaches the index of the broadcast, two peers that have entries of one term at one
  -- index have the same entries up to that index.
  pub log_matching :
      (s u : Network C) (i j k : ℕ) (e e' : LogEntry C)
      → IsFresh gob n s.cluster
      → s.pool ≡ []
      → Trace gob n s u
      → entry_at (u.cluster.peer i) k ≡ some e
      → entry_at (u.cluster.peer j) k ≡ some e'
      → e.term ≡ e'.term
      → (m : ℕ) → m ≤ k
      → entry_at (u.cluster.peer i) m ≡ entry_at (u.cluster.peer j) m
  unfolding entry_at sub_snapshot_index
  log_matching s u i j k e e' f empty r a b t m le =
      let ls = (Trace-Safe r (fresh-Safe s f empty)).logs in
      let ki = ls.known i in
      let kj = ls.known j in
      let (g, hg, p) = ki.held in
      let (h, hh, q) = kj.held in
      let same =
        IsPrefix-Matching (u.cluster.peer i).log (u.cluster.peer j).log g h p q
          (ls.matching g h hg hh) k e e' (ground (arith, ki.base)) (ground (arith, kj.base)) t m
          le in
      ground (arith, ki.base, kj.base, same)

  -- No peer of a network has a snapshot.
  pub no_snapshot :
      (s u : Network C) (i : ℕ)
      → IsFresh gob n s.cluster
      → s.pool ≡ []
      → Trace gob n s u
      → (u.cluster.peer i).last_included_index ≡ 0
  no_snapshot s u i f empty r = ((Trace-Safe r (fresh-Safe s f empty)).logs.known i).base
