-- ===== src/MapReduce/Master/Names.antt =====
-- The files of different map tasks have different names.
use mit.Prelude.{
  ℕ, zero, suc, ◌+◌, ◌/◌, ◌%◌, ◌≡◌, refl, sym, ap, ◌∙◌, ◌≤◌, [], ◌∷◌, ◌++◌, arith, All, ltb, ◌==◌,
  if◌then◌else◌, Bool-cases, inl, inr,
}
use mit.MapReduce.Types.{Text, ascii, digits, itoa, reduce_name}
use mit.MapReduce.Tasks.Shuffle.{itoa_inj, append_cancel}

-- What stands before the first dash.
abbrev before : Text → Text
before [] = []
before (b ∷ bs) = if b == 45 then [] else b ∷ before bs

before-append : (ds rest : Text) → All (λ b. 48 ≤ b) ds → before (ds ++ 45 ∷ rest) ≡ ds
before-append [] rest h = refl
before-append (d ∷ ds) rest h = ground (arith, before-append ds rest h.1, h.0)

digits-All :
    (fuel n : ℕ) (acc : Text) → All (λ b. 48 ≤ b) acc → All (λ b. 48 ≤ b) (digits fuel n acc)
unfolding digits
digits-All zero n acc h = h
digits-All (suc fuel) n acc h = elim (Bool-cases (ltb n 10)) [
  | inl small ↦ rw (small, digits) ((omega arith, h))
  | inr large ↦ rw (large, digits) (digits-All fuel (n / 10) ((48 + n % 10) ∷ acc) (omega arith, h))
]

pub reduce_name_task :
    (job : Text) (m n r s : ℕ) → reduce_name job m r ≡ reduce_name job n s → m ≡ n
unfolding reduce_name itoa
reduce_name_task job m n r s e =
    let tails : itoa m ++ 45 ∷ itoa r ≡ itoa n ++ 45 ∷ itoa s =
      append_cancel (ascii "-") (append_cancel job (append_cancel (ascii "mrtmp.") e)) in
    itoa_inj m n (
      sym (before-append (itoa m) (itoa r) (digits-All (suc m) m [] tt))
      ∙ ap before tails
      ∙ before-append (itoa n) (itoa s) (digits-All (suc n) n [] tt))
