-- ===== src/Raft/Cluster/Updates.antt =====
-- What holds of a family that is changed at one place.
use mathlib.Core.Path.{subst}
use mit.Prelude.{ℕ, ◌≡◌, inl, inr, arith, ◌==◌, ==_iff, Bool-cases}
use mit.Raft.Cluster.{update}
use mit.Prelude.{◌≢◌}

-- A family that is changed at one place.
module _ {A B : Type 0} (f : ℕ → A) (g : ℕ → B) (i : ℕ) where
  pub update-all :
      (P : ℕ → A → B → Type 0) (a : A)
      → P i a (g i)
      → ((j : ℕ) → P j (f j) (g j))
      → (j : ℕ) → P j (update f i a j) (g j)
  update-all P a p h j = elim (Bool-cases (i == j)) [
    | inl same ↦ rw same (subst (λ k. P k a (g k)) ((==_iff i j).0 same) p)
    | inr other ↦ rw other (h j)
  ]

  pub update-all_both :
      (P : ℕ → A → B → Type 0) (a : A) (b : B)
      → P i a b
      → ((j : ℕ) → P j (f j) (g j))
      → (j : ℕ) → P j (update f i a j) (update g i b j)
  update-all_both P a b p h j = elim (Bool-cases (i == j)) [
    | inl same ↦ rw same (subst (λ k. P k a b) ((==_iff i j).0 same) p)
    | inr other ↦ rw other (h j)
  ]

pub update_self : {A : Type 0} (f : ℕ → A) (i : ℕ) (a : A) → update f i a i ≡ a
update_self f i a = ground arith

-- A family that is changed at one place, where only the others keep what they have.
pub update-all_but :
    {A : Type 0} (f : ℕ → A) (i : ℕ) (P : ℕ → A → Type 0) (a : A)
    → P i a
    → ((j : ℕ) → i ≢ j → P j (f j))
    → (j : ℕ) → P j (update f i a j)
update-all_but f i P a p h j = elim (Bool-cases (i == j)) [
  | inl same ↦ rw same (subst (λ k. P k a) ((==_iff i j).0 same) p)
  | inr other ↦ rw other (h j (λ q. ground (arith, ==_iff i j)))
]
