-- ===== src/Raft/Consensus/Leading/Extending.antt =====
-- A command that is submitted to a leader makes a longer log of its.
use mit.Prelude.{
  ℕ, ◌+◌, ◌≡◌, ◌≤◌, ◌<◌, ◌⊎◌, inl, inr, some, List, arith, length, get_elem?, get_elem?_le, refl,
  sym, ◌∙◌, [], ◌∷◌, ◌++◌, length-append, get_elem?-append_left, get_elem?-append_right,
}
use native.Mathlib.Decide.{dec_lt}
use mit.Raft.Types.{LogEntry, Raft, leader, RequestVoteArgs}
use mit.Raft.Gob.{Gob}
use mit.Raft.Cluster.{Ballot, Has, update}
use mit.Raft.Network.Prefix.{IsPrefix}
use mit.Raft.Consensus.{Ack}
use mit.Raft.Consensus.Reigns.{Reign, Sound, Acked-more, Acked-prefix, Support-more}
use mit.Raft.Consensus.Quorum.{Quorate}
use mit.Raft.Consensus.Leading.{one_owner, enthroned, crown}

module _ {C : Type 0} (gob : Gob C) (n : ℕ) where
  module _ (peer : ℕ → Raft C) (ballots : List Ballot) (calls : List RequestVoteArgs)
      (rs : List (Reign C)) (acks : List Ack) (q : Quorate n peer ballots calls rs acks)
      (cast : (b : Ballot) → Has b ballots → b.term ≤ (peer b.voter).current_term)
      (once : (b b' : Ballot)
        → Has b ballots
        → Has b' ballots
        → b.voter ≡ b'.voter
        → b.term ≡ b'.term
        → b.candidate ≡ b'.candidate) where
    module _ (i : ℕ) (rf' : Raft C) where
      longer_prefix : (x : List (LogEntry C)) (e : LogEntry C) → IsPrefix x (x ++ e ∷ [])
      longer_prefix x e k a at =
          ground (arith, get_elem?_le x k, at, get_elem?-append_left x (e ∷ []) k)

      -- Where an entry of a longer log stands.
      longer-cases :
          (x : List (LogEntry C)) (e a : LogEntry C) (k : ℕ)
          → get_elem? (x ++ e ∷ []) k ≡ some a
          → (get_elem? x k ≡ some a) ⊎ ((k ≡ length x) × (a ≡ e))
      longer-cases x e a k at = elim (dec_lt k (length x)) [
        | yes old ↦ inl (sym (get_elem?-append_left x (e ∷ []) k old) ∙ at)
        | no new ↦
            let last : k ≡ length x + 0 =
              ground (arith, get_elem?_le (x ++ e ∷ []) k, length-append {0} x (e ∷ [])) in
            inr (omega (arith, last), ground (arith, last, at, get_elem?-append_right x (e ∷ []) 0))
      ]

      longer-Sound :
          (e : LogEntry C)
          → e.term ≡ (peer i).current_term
          → 0 < e.term
          → Sound
              (enthroned gob n peer ballots calls rs acks q cast once i rf'
                ((peer i).log ++ e ∷ []))
              (peer i).current_term
              ((peer i).log ++ e ∷ [])
      longer-Sound e te pos =
          let x = (peer i).log in
          let y = x ++ e ∷ [] in
          let s = q.logs i in
          record {
            rooted = λ k a at p. elim (longer-cases x e a k at) [
              | inl old ↦
                  let (r, hr, tr, u) = s.rooted k a old p in
                  (
                    r,
                    inr hr,
                    tr,
                    λ j b le at'. elim (longer-cases x e b j at') [
                      | inl old' ↦ u j b le old'
                      | inr (out, _) ↦ absurd (ground (arith, out, get_elem?_le x k, old))
                    ],
                  )
              | inr (last, same) ↦ (_, inl refl, rw same (sym te), λ j b le at'. at')
            ];
            sorted = λ j k a b le at at'. elim (longer-cases x e b k at') [
              | inl old ↦ elim (longer-cases x e a j at) [
                | inl old' ↦ s.sorted j k a b le old' old
                | inr (out, _) ↦ absurd (ground (arith, out, get_elem?_le x k, old))
              ]
              | inr (last, same) ↦ elim (longer-cases x e a j at) [
                | inl old' ↦ ground (arith, same, te, s.bounded j a old')
                | inr (_, same') ↦ ground (arith, same, same')
              ]
            ];
            bounded = λ k a at. elim (longer-cases x e a k at) [
              | inl old ↦ s.bounded k a old
              | inr (last, same) ↦ ground (arith, same, te)
            ];
            blank = λ k a at z. elim (longer-cases x e a k at) [
              | inl old ↦ s.blank k a old z
              | inr (last, same) ↦ absurd (ground (arith, same, pos))
            ];
            filled = omega (arith, s.filled, length-append {0} x (e ∷ []));
          }

      -- A leader appends an entry of its term.
      pub extending :
          (e : LogEntry C)
          → e.term ≡ (peer i).current_term
          → (peer i).state ≡ leader
          → rf'.state ≡ leader
          → rf'.current_term ≡ (peer i).current_term
          → rf'.log ≡ (peer i).log ++ e ∷ []
          → Quorate n
              (update peer i rf')
              ballots
              calls
              (enthroned gob n peer ballots calls rs acks q cast once i rf'
                ((peer i).log ++ e ∷ []))
              acks
      extending e te l l' tm longer =
          let t = (peer i).current_term in
          let x = (peer i).log in
          let y = x ++ e ∷ [] in
          let rs' = enthroned gob n peer ballots calls rs acks q cast once i rf' y in
          let more : (r : Reign C) → Has r rs → Has r rs' = λ r h. inr h in
          let now : Reign C = record { owner = i; term = t; log = x } in
          let held : Has now rs = q.leads i l in
          let pos : 0 < t = (q.sound now held).1 in
          let sound : Sound rs' t y = longer-Sound e te (omega (arith, te)) in
          let above : (r : Reign C) → Has r rs → r.term ≡ t → IsPrefix r.log y =
            λ r h tr k a at. longer_prefix x e k a (q.owns i r l h tr k a at) in
          let m = q.mandates now held in
          crown gob n peer ballots calls rs acks q cast once i rf' y
            (record {
              term = omega (arith, tm);
              role = λ c. cc;
              keeps = λ a le k.
                  rw (tm, longer)
                    (Acked-prefix rs' a x y (t + 1) (longer_prefix x e)
                      (Acked-more rs rs' a x (t + 1) (t + 1) more (omega arith) k));
            })
            l' tm longer sound pos
            (record {
              voters = m.voters;
              distinct = m.distinct;
              below = m.below;
              majority = m.majority;
              cast = m.cast;
              supported = λ v vh.
                  let (g, s, p) = m.supported v vh in
                  (
                    g,
                    Support-more rs rs' acks acks v t g more (λ a ha. inl ha) s,
                    λ k b at. longer_prefix x e k b (p k b at),
                  );
            })
            above
            (λ j other lj same. other (
              one_owner gob n peer ballots calls rs acks q cast once now _ held (q.leads j lj)
                same))
