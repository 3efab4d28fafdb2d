-- ===== src/Raft/Network/Leaders.antt =====
-- A command that a leader appends makes a new log in the history: the leader's own, with an entry of a
-- term that no other peer leads in.
use mathlib.Core.Path.{subst}
use mit.Prelude.{
  ℕ, ◌≡◌, ◌≢◌, ◌<◌, ◌⊎◌, inl, inr, some, List, [], ◌∷◌, ◌++◌, arith, length, get_elem?,
  get_elem?_le, get_elem?-append_left, get_elem?-append_right, length-append, refl, sym, ap, ◌∙◌,
}
use native.Mathlib.Decide.{dec_lt}
use mit.Raft.Types.{LogEntry, leader, Raft}
use mit.Raft.Gob.{Gob}
use mit.Raft.Cluster.{Has, update, Cluster}
use mit.Raft.Cluster.Safety.{one_leader}
use mit.Raft.Cluster.Invariant.{Inv}
use mit.Raft.Cluster.Updates.{update-all_but}
use mit.Raft.Network.{Network}
use mit.Raft.Network.Prefix.{Matching, Matching-sym, Matching-append}
use mit.Raft.Network.Life.{Life}
use mit.Raft.Network.History.{Known, Won, Logs, leader-Won, more-Won}

module _ {C : Type 0} (gob : Gob C) (n : ℕ) where
  module _ (s : Network C) (i : ℕ) (H : List (List (LogEntry C))) (e : LogEntry C) where
    module _ (ls : Logs n s H) (inv : Inv gob n s.cluster) (l : (s.cluster.peer i).state ≡ leader)
        (te : e.term ≡ (s.cluster.peer i).current_term) where
      abbrev longer : List (LogEntry C)
      longer = (s.cluster.peer i).log ++ e ∷ []

      -- Where an entry of the longer log stands.
      longer-cases :
          (k : ℕ) (x : LogEntry C)
          → get_elem? longer k ≡ some x
          → (get_elem? (s.cluster.peer i).log k ≡ some x)
            ⊎ ((k ≡ length (s.cluster.peer i).log) × (x ≡ e))
      longer-cases k x q = elim (dec_lt k (length (s.cluster.peer i).log)) [
        | yes old ↦ inl (sym (get_elem?-append_left (s.cluster.peer i).log (e ∷ []) k old) ∙ q)
        | no new ↦ ground (
          arith,
          get_elem?_le longer k,
          length-append {0} (s.cluster.peer i).log (e ∷ []),
          get_elem?-append_right (s.cluster.peer i).log (e ∷ []) 0,
        )
      ]

      longer-Matching : (h : List (LogEntry C)) → Has h H → Matching longer h
      longer-Matching h hh =
          let (g, hg, p) = (ls.known i).held in
          Matching-append (s.cluster.peer i).log g h e p (ls.matching g h hg hh)
            (λ k x q t. (ls.known i).owned l h hh k x q (t ∙ te))

      history-Matching :
          (h h' : List (LogEntry C)) → Has h (longer ∷ H) → Has h' (longer ∷ H) → Matching h h'
      history-Matching h h' (inl q) (inl q') =
          λ k x x' a a' t m le. ap (λ g. get_elem? g m) (sym q ∙ q')
      history-Matching h h' (inl q) (inr o) = subst (λ g. Matching g h') q (longer-Matching h' o)
      history-Matching h h' (inr o) (inl q) =
          subst (Matching h) q (Matching-sym longer h (longer-Matching h o))
      history-Matching h h' (inr o) (inr o') = ls.matching h h' o o'

      longer-born :
          (k : ℕ) (x : LogEntry C)
          → get_elem? longer k ≡ some x
          → (k ≡ 0) ⊎ ((c : ℕ) × Won n s.cluster c x.term)
      longer-born k x q = elim (longer-cases k x q) [
        | inl old ↦ let (g, hg, p) = (ls.known i).held in ls.born g hg k x (p k x old)
        | inr (end', same) ↦ inr (
          i,
          subst (Won n s.cluster i) (sym te ∙ ap (λ y. y.term) (sym same))
              (leader-Won gob n s.cluster i inv l),
        )
      ]

      history-born :
          (h : List (LogEntry C))
          → Has h (longer ∷ H)
          → (k : ℕ) (x : LogEntry C) → get_elem? h k ≡ some x
          → (k ≡ 0) ⊎ ((c : ℕ) × Won n s.cluster c x.term)
      history-born h (inl a) k x q = longer-born k x (ap (λ g. get_elem? g k) a ∙ q)
      history-born h (inr o) k x q = ls.born h o k x q

      -- What another leader has seen of its term holds no entry of the new one's.
      other-owned :
          (j : ℕ) (h : List (LogEntry C))
          → (s.cluster.peer j).state ≡ leader
          → i ≢ j
          → Has h (longer ∷ H)
          → (k : ℕ) (x : LogEntry C) → get_elem? h k ≡ some x
          → x.term ≡ (s.cluster.peer j).current_term
          → k < length (s.cluster.peer j).log
      other-owned j h lj d (inr o) k x q t = (ls.known j).owned lj h o k x q t
      other-owned j h lj d (inl a) k x q t =
          elim (longer-cases k x (ap (λ g. get_elem? g k) a ∙ q)) [
            | inl old ↦
                let (g, hg, p) = (ls.known i).held in (ls.known j).owned lj g hg k x (p k x old) t
            | inr (end', same) ↦ absurd (
                d (
                  one_leader gob n s.cluster i j inv l lj
                    (sym te ∙ ap (λ y. y.term) (sym same) ∙ t)))
          ]

      -- The leader's own entries are all in its longer log.
      own-owned :
          (h : List (LogEntry C))
          → Has h (longer ∷ H)
          → (k : ℕ) (x : LogEntry C) → get_elem? h k ≡ some x
          → x.term ≡ (s.cluster.peer i).current_term
          → k < length longer
      own-owned h (inl a) k x q t = ground (arith, a, get_elem?_le h k)
      own-owned h (inr o) k x q t = ground (
        arith,
        (ls.known i).owned l h o k x q t,
        length-append {0} (s.cluster.peer i).log (e ∷ []),
      )

      more-Known : (j : ℕ) → i ≢ j → Known (s.cluster.peer j) (longer ∷ H)
      more-Known j d =
          let k = ls.known j in
          let (g, hg, p) = k.held in
          record {
            base = k.base;
            filled = k.filled;
            held = (g, inr hg, p);
            owned = λ lj h hh m x q t. other-owned j h lj d hh m x q t;
          }

      pub longer-Logs :
          (rf : Raft C)
          → rf.log ≡ longer
          → rf.last_included_index ≡ 0
          → rf.current_term ≡ (s.cluster.peer i).current_term
          → Life gob n (s.cluster.peer i) rf
          → Logs n
              (record s { cluster = record s.cluster { peer = update s.cluster.peer i rf } })
              (longer ∷ H)
      longer-Logs rf log base term life =
          let c : Cluster C = record s.cluster { peer = update s.cluster.peer i rf } in
          record {
            known =
                update-all_but s.cluster.peer i (λ j r. Known r (longer ∷ H)) rf
                  (record {
                    base = base;
                    filled = ground (
                      arith,
                      log,
                      (ls.known i).filled,
                      length-append {0} (s.cluster.peer i).log (e ∷ []),
                    );
                    held = (longer, inl refl, λ k x q. rw (sym log) q);
                    owned = λ lr h hh k x q t. rw log (own-owned h hh k x q (t ∙ term));
                  })
                  more-Known;
            matching = history-Matching;
            sent = λ a m. let (h, hh, p) = ls.sent a m in (h, inr hh, p);
            born = λ h hh k x q. elim (history-born h hh k x q) [
              | inl z ↦ inl z
              | inr (j, w) ↦
                  inr (j, more-Won gob n s.cluster c i rf j x.term refl life (λ b hb. hb) w)
            ];
          }
