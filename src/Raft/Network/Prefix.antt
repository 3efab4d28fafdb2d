-- ===== src/Raft/Network/Prefix.antt =====
-- Logs that are the beginnings of others, and logs that agree up to wherever they have an entry of the
-- same term at the same place.
use mit.Prelude.{
  ℕ, ◌+◌, ◌-◌, ◌≡◌, sym, ◌∙◌, ◌≤◌, ◌<◌, some, List, [], ◌∷◌, ◌++◌, arith, length, get_elem?,
  get_elem?_lt, get_elem?_le, take, length-take, get_elem?-take, get_elem?-append_left,
  get_elem?-append_right, length-append,
}
use native.Mathlib.Decide.{dec_lt}
use mit.Raft.Types.{LogEntry}

module _ {C : Type 0} where
  abbrev pub IsPrefix : List (LogEntry C) → List (LogEntry C) → Type 0
  IsPrefix l h = (k : ℕ) (e : LogEntry C) → get_elem? l k ≡ some e → get_elem? h k ≡ some e

  abbrev pub Matching : List (LogEntry C) → List (LogEntry C) → Type 0
  Matching h h' =
      (k : ℕ) (e e' : LogEntry C)
      → get_elem? h k ≡ some e
      → get_elem? h' k ≡ some e'
      → e.term ≡ e'.term
      → (m : ℕ) → m ≤ k
      → get_elem? h m ≡ get_elem? h' m

  pub Matching-sym : (h h' : List (LogEntry C)) → Matching h h' → Matching h' h
  Matching-sym h h' w k e e' q q' t m le = sym (w k e' e q' q (sym t) m le)

  -- Beginnings of matching logs match.
  pub IsPrefix-Matching :
      (l l' h h' : List (LogEntry C))
      → IsPrefix l h
      → IsPrefix l' h'
      → Matching h h'
      → Matching l l'
  IsPrefix-Matching l l' h h' p p' w k e e' q q' t m le =
      let (x, a) = get_elem?_lt l m (ground (arith, get_elem?_le l k, get_elem?_le l m)) in
      let (x', a') = get_elem?_lt l' m (ground (arith, get_elem?_le l' k, get_elem?_le l' m)) in
      ground (arith, p m x, p' m x', w k e e' (p k e q) (p' k e' q') t m le)

  -- Entries of `h` behind place `p`, written behind an entry that has the term of the one of `h`.
  pub written_prefix :
      (l g h es : List (LogEntry C)) (p : ℕ) (x y : LogEntry C)
      → IsPrefix l g
      → Matching g h
      → get_elem? l p ≡ some x
      → get_elem? h p ≡ some y
      → x.term ≡ y.term
      → ((k : ℕ) (e : LogEntry C) → get_elem? es k ≡ some e → get_elem? h (p + 1 + k) ≡ some e)
      → IsPrefix (take (p + 1) l ++ es) h
  written_prefix l g h es p x y lg gh lp hp t chunk k e q = elim (dec_lt k (p + 1)) [
    | yes old ↦ ground (
      arith,
      get_elem?_le l p,
      length-take {0} (p + 1) l,
      get_elem?-append_left (take (p + 1) l) es k,
      get_elem?-take (p + 1) l k,
      lg k e,
      gh p x y (lg p x lp) hp t k (omega arith),
    )
    | no new ↦
        let offset : length (take (p + 1) l) + (k - (p + 1)) ≡ k =
          ground (arith, get_elem?_le l p, length-take {0} (p + 1) l) in
        let same : p + 1 + (k - (p + 1)) ≡ k = omega arith in
        ground (
          arith,
          offset,
          same,
          get_elem?-append_right (take (p + 1) l) es (k - (p + 1)),
          chunk (k - (p + 1)) e,
        )
  ]

  -- A new entry of a term that the other log has at lower places only.
  pub Matching-append :
      (l g h : List (LogEntry C)) (e : LogEntry C)
      → IsPrefix l g
      → Matching g h
      → ((k : ℕ) (x : LogEntry C) → get_elem? h k ≡ some x → x.term ≡ e.term → k < length l)
      → Matching (l ++ e ∷ []) h
  Matching-append l g h e lg gh below k x x' q q' t m le = elim (dec_lt k (length l)) [
    | yes old ↦
        let (y, a) = get_elem?_lt l m (omega arith) in
        ground (
          arith,
          get_elem?-append_left l (e ∷ []) k,
          get_elem?-append_left l (e ∷ []) m,
          lg k x,
          lg m y,
          gh k x x',
          gh k x x' (lg k x (sym (get_elem?-append_left l (e ∷ []) k old) ∙ q)) q' t m le,
        )
    | no new ↦ absurd (
        ground (
          arith,
          get_elem?_le (l ++ e ∷ []) k,
          length-append {0} l (e ∷ []),
          get_elem?-append_right l (e ∷ []) 0,
          below k x' q',
        ))
  ]
