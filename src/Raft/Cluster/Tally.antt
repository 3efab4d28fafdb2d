-- ===== src/Raft/Cluster/Tally.antt =====
-- Two majorities of the same peers have a peer in common.
use mit.Prelude.{
  ℕ, zero, suc, ◌+◌, ◌*◌, ◌≡◌, refl, leb, ◌≤◌, ◌<◌, List, [], ◌∷◌, arith, All, length, ◌==◌,
  if◌then◌else◌,
}
use native.Mathlib.Decide.{dec_lt}
use mit.Raft.Cluster.{count}

-- The sum of a family below `n`.
sum : ℕ → (ℕ → ℕ) → ℕ
sum zero f = 0
sum (suc n) f = f n + sum n f

sum-add : (n : ℕ) (f g : ℕ → ℕ) → sum n (λ v. f v + g v) ≡ sum n f + sum n g
unfolding sum
sum-add zero f g = omega arith
sum-add (suc n) f g = omega (arith, sum-add n f g)

sum_zero : (n : ℕ) → sum n (λ v. 0) ≡ 0
unfolding sum
sum_zero zero = refl
sum_zero (suc n) = omega (arith, sum_zero n)

-- A number below `n` counts once, any other not at all.
sum_one : (n x : ℕ) → sum n (λ v. if x == v then 1 else 0) ≡ (if leb n x then 0 else 1)
unfolding sum
sum_one zero x = ground arith
sum_one (suc n) x = ground (arith, sum_one n x)

sum_count : (n : ℕ) (xs : List ℕ) → All (λ x. x < n) xs → sum n (λ v. count v xs) ≡ length xs
sum_count n [] h = sum_zero n
sum_count n (x ∷ xs) h =
    ground (
      arith,
      sum-add n (λ v. if x == v then 1 else 0) (λ v. count v xs),
      sum_one n x,
      sum_count n xs,
    )

-- A family that sums up to more than `n` is above one somewhere.
sum_above : (n : ℕ) (f : ℕ → ℕ) → n < sum n f → (v : ℕ) × (1 < f v)
unfolding sum
sum_above zero f h = absurd (omega arith)
sum_above (suc n) f h = elim (dec_lt 1 (f n)) [
  | yes above ↦ (n, above)
  | no below ↦ sum_above n f (omega arith)
]

pub common_voter :
    (n : ℕ) (xs ys : List ℕ)
    → All (λ x. x < n) xs
    → All (λ y. y < n) ys
    → ((v : ℕ) → count v xs ≤ 1)
    → ((v : ℕ) → count v ys ≤ 1)
    → n < 2 * length xs
    → n < 2 * length ys
    → (v : ℕ) × (0 < count v xs) × (0 < count v ys)
common_voter n xs ys bx by' dx dy mx my =
    let (v, above) =
      sum_above n (λ v. count v xs + count v ys)
        (omega (
          arith,
          sum-add n (λ v. count v xs) (λ v. count v ys),
          sum_count n xs bx,
          sum_count n ys by',
        )) in
    (v, omega (arith, above, dx v, dy v), omega (arith, above, dx v, dy v))
