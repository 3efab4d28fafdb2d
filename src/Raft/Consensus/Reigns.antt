-- ===== src/Raft/Consensus/Reigns.antt =====
-- The logs that leaders have had, each with its term, and what a log has of them.
pub mod Common
use mit.Prelude.{
  ℕ, ◌+◌, ◌-◌, ◌≡◌, ◌≢◌, ◌≤◌, ◌<◌, ◌⊎◌, inl, inr, some, none, List, arith, length, get_elem?,
  get_elem?_lt, get_elem?_le, refl, sym, ◌∙◌,
}
use native.Mathlib.Decide.{dec_lt}
use mit.Raft.Types.{LogEntry}
use mit.Raft.Cluster.{Has}
use mit.Raft.Consensus.{Ack}
use mit.Raft.Network.Prefix.{IsPrefix, Matching}

-- The log that peer `owner` had at some time when it led in `term`.
pub record Reign (C : Type 0) : Type 0 where
  pub owner : ℕ
  pub term : ℕ
  pub log : List (LogEntry C)

module _ {C : Type 0} where
  -- The first log has the entries of the second up to index `k`.
  abbrev pub Upto : ℕ → List (LogEntry C) → List (LogEntry C) → Type 0
  Upto k h x = (j : ℕ) (e : LogEntry C) → j ≤ k → get_elem? h j ≡ some e → get_elem? x j ≡ some e

  abbrev pub placeholder : LogEntry C
  placeholder = record { command = none; term = 0; index = 0 }

  -- Each entry of a term stands in a log of that term's leader, behind the same entries.
  pub record Sound (rs : List (Reign C)) (bound : ℕ) (x : List (LogEntry C)) : Type 0 where
    pub rooted :
        (k : ℕ) (e : LogEntry C)
        → get_elem? x k ≡ some e
        → 0 < e.term
        → (r : Reign C) × Has r rs × (r.term ≡ e.term) × Upto k x r.log
    pub sorted :
        (j k : ℕ) (e e' : LogEntry C)
        → j ≤ k
        → get_elem? x j ≡ some e
        → get_elem? x k ≡ some e'
        → e.term ≤ e'.term
    pub bounded : (k : ℕ) (e : LogEntry C) → get_elem? x k ≡ some e → e.term ≤ bound
    -- Only the placeholder has no term.
    pub blank :
        (k : ℕ) (e : LogEntry C) → get_elem? x k ≡ some e → e.term ≡ 0 → (k ≡ 0) × (e ≡ placeholder)
    pub filled : 0 < length x

  pub Sound-more :
      (rs rs' : List (Reign C)) (b b' : ℕ) (x : List (LogEntry C))
      → ((r : Reign C) → Has r rs → Has r rs')
      → b ≤ b'
      → Sound rs b x
      → Sound rs' b' x
  Sound-more rs rs' b b' x more le s = record {
    rooted = λ k e q p. let (r, hr, t, u) = s.rooted k e q p in (r, more r hr, t, u);
    sorted = s.sorted;
    bounded = λ k e q. omega (arith, s.bounded k e q);
    blank = s.blank;
    filled = s.filled;
  }

  -- What the beginnings of a sound log are.
  pub Sound-prefix :
      (rs : List (Reign C)) (b : ℕ) (x y : List (LogEntry C))
      → IsPrefix x y
      → 0 < length x
      → Sound rs b y
      → Sound rs b x
  Sound-prefix rs b x y p f s = record {
    rooted = λ k e q t.
        let (r, hr, te, u) = s.rooted k e (p k e q) t in
        (r, hr, te, λ j a le qa. u j a le (p j a qa));
    sorted = λ j k e e' le q q'. s.sorted j k e e' le (p j e q) (p k e' q');
    bounded = λ k e q. s.bounded k e (p k e q);
    blank = λ k e q. s.blank k e (p k e q);
    filled = f;
  }

  -- Of a log of term `t` up to index `i`, `x` has as much as all leaders of later terms below `limit`
  -- have.
  abbrev pub Kept : List (Reign C) → ℕ → ℕ → List (LogEntry C) → List (LogEntry C) → ℕ → Type 0
  Kept rs t i h x limit =
      (k : ℕ)
      → k ≤ i
      → ((r : Reign C) → Has r rs → t < r.term → r.term < limit → Upto k h r.log)
      → Upto k h x

  pub record Acked (rs : List (Reign C)) (a : Ack) (x : List (LogEntry C)) (limit : ℕ)
      : Type 0 where
    pub root : Reign C
    pub inside : Has root rs
    pub term : root.term ≡ a.term
    pub long : a.index < length root.log
    pub kept : Kept rs a.term a.index root.log x limit

  pub Acked-more :
      (rs rs' : List (Reign C)) (a : Ack) (x : List (LogEntry C)) (l l' : ℕ)
      → ((r : Reign C) → Has r rs → Has r rs')
      → l ≤ l'
      → Acked rs a x l
      → Acked rs' a x l'
  Acked-more rs rs' a x l l' more le k = record {
    root = k.root;
    inside = more k.root k.inside;
    term = k.term;
    long = k.long;
    kept = λ i li mid. k.kept i li (λ r hr lo hi. mid r (more r hr) lo (omega arith));
  }

  -- Leaders of term `t` are no limit as long as there are none.
  pub Acked-limit :
      (rs : List (Reign C)) (a : Ack) (x : List (LogEntry C)) (l t : ℕ)
      → l ≤ t + 1
      → ((r : Reign C) → Has r rs → r.term ≢ t)
      → Acked rs a x l
      → Acked rs a x t
  Acked-limit rs a x l t le none_yet k = record {
    root = k.root;
    inside = k.inside;
    term = k.term;
    long = k.long;
    kept = λ i li mid. k.kept i li (λ r hr lo hi. mid r hr lo (omega (arith, none_yet r hr)));
  }

  -- A log that has all of another one keeps as much.
  pub Acked-prefix :
      (rs : List (Reign C)) (a : Ack) (x y : List (LogEntry C)) (l : ℕ)
      → IsPrefix x y
      → Acked rs a x l
      → Acked rs a y l
  Acked-prefix rs a x y l p k = record {
    root = k.root;
    inside = k.inside;
    term = k.term;
    long = k.long;
    kept = λ i li mid j e le q. p j e (k.kept i li mid j e le q);
  }

  -- The last entry of `g` makes it at least as up to date as `x`.
  pub record Recent (g x : List (LogEntry C)) : Type 0 where
    pub g_last : LogEntry C
    pub x_last : LogEntry C
    pub g_at : get_elem? g (length g - 1) ≡ some g_last
    pub x_at : get_elem? x (length x - 1) ≡ some x_last
    pub order : (x_last.term < g_last.term) ⊎ ((x_last.term ≡ g_last.term) × (length x ≤ length g))

  -- Why `v` voted in term `t` for a candidate that had the log `theirs`.
  pub record Support (rs : List (Reign C)) (acks : List Ack) (v t : ℕ) (theirs : List (LogEntry C))
      : Type 0 where
    pub mine : List (LogEntry C)
    pub mine_sound : Sound rs t mine
    pub sound : Sound rs t theirs
    pub older : (k : ℕ) (e : LogEntry C) → get_elem? theirs k ≡ some e → e.term < t
    pub recent : Recent theirs mine
    pub keeps : (a : Ack) → Has a acks → a.voter ≡ v → a.term < t → Acked rs a mine t

  pub Support-more :
      (rs rs' : List (Reign C)) (as' as'' : List Ack) (v t : ℕ) (g : List (LogEntry C))
      → ((r : Reign C) → Has r rs → Has r rs')
      → ((a : Ack) → Has a as'' → Has a as' ⊎ (a.voter ≡ v → t ≤ a.term))
      → Support rs as' v t g
      → Support rs' as'' v t g
  Support-more rs rs' as' as'' v t g more new s = record {
    mine = s.mine;
    mine_sound = Sound-more rs rs' t t s.mine more (omega arith) s.mine_sound;
    sound = Sound-more rs rs' t t g more (omega arith) s.sound;
    older = s.older;
    recent = s.recent;
    keeps = λ a ha e lt. elim (new a ha) [
      | inl old ↦ Acked-more rs rs' a s.mine t t more (omega arith) (s.keeps a old e lt)
      | inr late ↦ absurd (omega (arith, late e))
    ];
  }

  -- Logs of which one goes on where the other ends.
  abbrev pub Comparable : List (LogEntry C) → List (LogEntry C) → Type 0
  Comparable h h' = IsPrefix h h' ⊎ IsPrefix h' h
