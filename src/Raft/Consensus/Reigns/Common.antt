-- ===== src/Raft/Consensus/Reigns/Common.antt =====
-- What sound logs have in common, and what a log that is as recent as another one has of it.
use mit.Prelude.{
  ℕ, ◌-◌, ◌≡◌, ◌≢◌, ◌≤◌, ◌<◌, ◌⊎◌, inl, inr, some, List, arith, length, get_elem?, get_elem?_lt,
  get_elem?_le, refl, sym, ◌∙◌,
}
use native.Mathlib.Decide.{dec_lt}
use mit.Raft.Types.{LogEntry}
use mit.Raft.Cluster.{Has}
use mit.Raft.Network.Prefix.{IsPrefix, Matching}
use mit.Raft.Consensus.Reigns.{Reign, Sound, Upto, Recent, Comparable}

module _ {C : Type 0} where
  -- A log that is replaced by the beginning `q` of a log `r`, as it differed from it somewhere.
  pub replaced-Upto :
      (k m : ℕ) (h r q x : List (LogEntry C)) (e : LogEntry C)
      → k < length h
      → Upto k h r ⊎ IsPrefix r h
      → IsPrefix q r
      → get_elem? q m ≡ some e
      → get_elem? x m ≢ some e
      → Upto k h x
      → Upto k h q
  replaced-Upto k m h r q x e lt c p at ne u j a le qa = elim (dec_lt k m) [
    | yes above ↦
        let (b, at_q) = get_elem?_lt q j (ground (arith, get_elem?_le q m)) in
        let at_r = p j b at_q in
        elim c [
          | inl c₁ ↦ ground (arith, at_q, at_r, c₁ j a le qa, qa)
          | inr c₂ ↦ ground (arith, at_q, c₂ j b at_r, qa)
        ]
    | no below ↦
        let (b, at_h) = get_elem?_lt h m (omega arith) in
        let at_r = p m e at in
        let at_x = u m b (omega arith) at_h in
        absurd (
          ne (elim c [
            | inl c₁ ↦ ground (arith, at_r, at_x, c₁ m b (omega arith) at_h)
            | inr c₂ ↦ ground (arith, at_x, at_h, c₂ m e at_r)
          ]))
  ]

  -- Where a log has an entry, it has the one of a log that goes on like it.
  pub back :
      (m j : ℕ) (g y : List (LogEntry C)) (a : LogEntry C)
      → Upto m g y
      → j ≤ m
      → j < length g
      → get_elem? y j ≡ some a
      → get_elem? g j ≡ some a
  back m j g y a u le lt q =
      let (b, at_g) = get_elem?_lt g j lt in ground (arith, u j b le at_g, at_g)

  pub Comparable-at :
      (h h' : List (LogEntry C)) (j : ℕ) (a b : LogEntry C)
      → Comparable h h'
      → get_elem? h j ≡ some a
      → get_elem? h' j ≡ some b
      → get_elem? h j ≡ get_elem? h' j
  Comparable-at h h' j a b (inl p) q q' = q ∙ sym (p j a q)
  Comparable-at h h' j a b (inr p) q q' = p j b q' ∙ sym q'

  -- Sound logs match.
  pub Sound-Matching :
      (rs : List (Reign C)) (b b' : ℕ) (x y : List (LogEntry C))
      → ((r r' : Reign C) → Has r rs → Has r' rs → r.term ≡ r'.term → Comparable r.log r'.log)
      → Sound rs b x
      → Sound rs b' y
      → Matching x y
  Sound-Matching rs b b' x y chain sx sy k e e' q q' t m le = elim (dec_lt 0 e.term) [
    | yes pos ↦
        let (r, hr, tr, ur) = sx.rooted k e q pos in
        let (r', hr', tr', ur') = sy.rooted k e' q' (omega arith) in
        let (a, at_x) = get_elem?_lt x m (ground (arith, get_elem?_le x k)) in
        let (a', at_y) = get_elem?_lt y m (ground (arith, get_elem?_le y k)) in
        let at_r = ur m a le at_x in
        let at_r' = ur' m a' le at_y in
        at_x
        ∙ sym at_r
        ∙ Comparable-at r.log r'.log m a a' (chain r r' hr hr' (omega arith)) at_r at_r'
        ∙ at_r'
        ∙ sym at_y
    | no none_yet ↦
        let (k0, e0) = sx.blank k e q (omega arith) in
        let (_, e0') = sy.blank k e' q' (omega arith) in
        let first : m ≡ k = omega arith in rw (first, q, q', e0, e0') refl
  ]

  -- What a voter has kept of an entry of term `t`, a candidate has whose log is as up to date.
  pub Recent-Upto :
      (rs : List (Reign C)) (b k t : ℕ) (h g x : List (LogEntry C)) (e : LogEntry C)
      → ((r r' : Reign C) → Has r rs → Has r' rs → r.term ≡ r'.term → Comparable r.log r'.log)
      → ((r : Reign C) → Has r rs → Sound rs r.term r.log)
      → Sound rs b g
      → Sound rs b x
      → Recent g x
      → ((r : Reign C) → Has r rs → t < r.term → r.term < b → Upto k h r.log)
      → ((j : ℕ) (e : LogEntry C) → get_elem? g j ≡ some e → e.term < b)
      → get_elem? h k ≡ some e
      → e.term ≡ t
      → 0 < t
      → Upto k h x
      → Upto k h g
  Recent-Upto rs b k t h g x e chain good sg sx rec mid older at te pos u =
      let at_x = u k e (omega arith) at in
      let ordered =
        sx.sorted k (length x - 1) e rec.x_last (ground (arith, get_elem?_le x k)) at_x rec.x_at in
      elim rec.order [
        | inl higher ↦
            let m = length g - 1 in
            let (r, hr, tm, ur) = sg.rooted m rec.g_last rec.g_at (omega arith) in
            let has = mid r hr (omega arith) (omega (arith, older m rec.g_last rec.g_at)) in
            let below : k ≤ m = elim (dec_lt m k) [
              | yes lt ↦ absurd (
                  omega (
                    arith,
                    (good r hr).sorted m k rec.g_last e (omega arith)
                        (ur m rec.g_last (omega arith) rec.g_at) (has k e (omega arith) at),
                  ))
              | no ge ↦ omega arith
            ] in
            λ j a le q.
              back m j g r.log a ur (omega arith) (omega (arith, sg.filled)) (has j a le q)
        | inr (same, shorter) ↦
            let (r, hr, tm, ur) = sg.rooted (length g - 1) rec.g_last rec.g_at (omega arith) in
            let (r', hr', tm', ur') = sx.rooted (length x - 1) rec.x_last rec.x_at (omega arith) in
            let long : k < length x = ground (arith, get_elem?_le x k) in
            λ j a le q.
              let at_r' = ur' j a (omega arith) (u j a le q) in
              let (b', at_g) = get_elem?_lt g j (omega arith) in
              let at_r = ur j b' (omega arith) at_g in
              at_g
              ∙ sym at_r
              ∙ Comparable-at r.log r'.log j b' a (chain r r' hr hr' (omega arith)) at_r at_r'
              ∙ at_r'
      ]
