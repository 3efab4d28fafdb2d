-- ===== src/Raft/Consensus/Reachable.antt =====
-- The invariant in every state that a system comes to from empty disks.
use mathlib.Core.Path.{subst}
use mit.Prelude.{ℕ, zero, suc, ◌≡◌, inl, some, arith, get_elem?, refl, [], ◌∷◌}
use mit.Raft.Types.{LogEntry}
use mit.Raft.Gob.{Gob}
use mit.Raft.Cluster.{Has, IsFresh}
use mit.Raft.Cluster.Updates.{update_self}
use mit.Raft.Network.Matching.{Safe, make-log}
use mit.Raft.Consensus.{System, Turn, Course, start, later}
use mit.Raft.Consensus as Turns
use mit.Raft.Consensus.Reigns.{Sound, placeholder}
use mit.Raft.Consensus.Commits.{make_commit}
use mit.Raft.Consensus.Steady.Votes.{asking}
use mit.Raft.Consensus.Runs.{Held, Turn-Safe}
use mit.Raft.Consensus.Runs.Elections.{other-Held, vote-Held, submit-Held}
use mit.Raft.Consensus.Runs.Messages.{post-Held, receive-Held}
use mit.Raft.Consensus.Runs.Counting.{agree-Held}

module _ {C : Type 0} (gob : Gob C) (n : ℕ) where
  Turn-Held :
      {s u : System C}
      → Turn gob n s u
      → Safe gob n s.network
      → Safe gob n u.network
      → Held gob n s
      → Held gob n u
  Turn-Held (Turns.other m p) safe safe' held = other-Held gob n safe held m p safe'.elections
  Turn-Held {s} (Turns.ask i {args} c h) safe safe' held = record {
    reigns = held.reigns;
    acks = held.acks;
    quorate =
        asking gob n s.network.cluster.peer s.network.cluster.ballots s.calls held.reigns held.acks
          held.quorate safe.elections.votes.cast i args c (safe.logs.known i).base
          (safe.elections.peers.who i) h;
    requests = held.requests;
    replies = held.replies;
    commits = held.commits;
  }
  Turn-Held (Turns.vote i args t {rf} {reply} lt hc h) safe safe' held =
      vote-Held gob n safe held i args t rf reply hc h
  Turn-Held (Turns.post i spare index term commit to {args} {next} reaches l e a b h) safe safe'
        held =
      post-Held gob n safe held i spare index term commit to args next reaches l e a b h
  Turn-Held {s} (Turns.receive i args t u {rf} {reply} lt hp h) safe safe' held =
      receive-Held gob n safe held i args t u rf reply hp
        (subst (λ r. r.last_included_index ≡ 0) (update_self s.network.cluster.peer i rf)
          (safe'.logs.known i).base)
        h
  Turn-Held (Turns.submit i c now l) safe safe' held = submit-Held gob n safe held i c now l
  Turn-Held (Turns.agree i j index r r' o voters {rf} h count distinct below acked) safe safe'
        held =
      agree-Held gob n safe held i j index r r' o voters rf h count distinct below acked

  pub Course-Held :
      {s u : System C}
      → Course gob n s u
      → Safe gob n s.network × Held gob n s
      → Safe gob n u.network × Held gob n u
  Course-Held start h = h
  Course-Held (later c t) h =
      let (safe, held) = Course-Held c h in
      let safe' = Turn-Safe gob n t safe in (safe', Turn-Held t safe safe' held)

  -- Peers on empty disks, and no message on its way.
  pub record IsInitial (s : System C) : Type 0 where
    pub fresh : IsFresh gob n s.network.cluster
    pub pool : s.network.pool ≡ []
    pub calls : s.calls ≡ []
    pub replies : s.replies ≡ []

  placeholder_at :
      (k : ℕ) (e : LogEntry C)
      → get_elem? (placeholder ∷ []) k ≡ some e
      → (k ≡ 0) × (e ≡ placeholder)
  placeholder_at zero e q = (refl, ground (arith, q))
  placeholder_at (suc k) e q = cc

  first-Sound : (t : ℕ) → Sound {C = C} [] t (placeholder ∷ [])
  first-Sound t = record {
    rooted = λ k e q p. absurd (ground (arith, placeholder_at k e q, p));
    sorted = λ j k e e' le q q'. ground (arith, placeholder_at j e q, placeholder_at k e' q');
    bounded = λ k e q. ground (arith, placeholder_at k e q);
    blank = λ k e q z. placeholder_at k e q;
    filled = omega arith;
  }

  pub initial-Held : (s : System C) → IsInitial s → Held gob n s
  initial-Held s f =
      let made : (i : ℕ) → _ =
        λ i. make-log gob n i (f.fresh.made i).0 (s.network.cluster.peer i) (f.fresh.made i).1 in
      record {
        reigns = [];
        acks = [];
        quorate = record {
          logs = λ i. rw (made i).0 (first-Sound _);
          fresh = λ i c k e q. absurd (ground (arith, (made i).2, c));
          leads = λ i l. absurd (ground (arith, (made i).2, l));
          owns = λ i r l h. elim h [ ];
          chain = λ r r' h. elim h [ ];
          sound = λ r h. elim h [ ];
          past = λ r h. elim h [ ];
          mandates = λ r h. elim h [ ];
          votes = λ b h. elim (subst (Has b) f.fresh.ballots h) [ ];
          called = λ args h. elim (subst (Has args) f.calls h) [ ];
          acked = λ a h. elim h [ ];
        };
        requests = λ args h. elim (subst (Has args) f.pool h) [ ];
        replies = λ a h. elim (subst (Has a) f.replies h) [ ];
        commits = λ i. inl (
            omega (
              arith,
              make_commit gob n n i _ (f.fresh.made i).0 (s.network.cluster.peer i)
                  (f.fresh.made i).1,
              (made i).1,
            ));
      }
