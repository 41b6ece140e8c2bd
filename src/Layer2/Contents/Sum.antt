-- ===== src/Layer2/Contents/Sum.antt =====
-- Sums over the entries of an indirect block.
use filesystem.Prelude.{
  ◌==◌, if◌then◌else◌, eq_or_ne, ℕ, zero, suc, ◌+◌, ◌≤◌, ◌<◌, ◌≡◌, refl, ◌≢◌, inl, inr, arith,
}

-- g 0 + ... + g (n - 1)
unfoldable pub sum : (ℕ → ℕ) → (n : ℕ) → ℕ
sum g zero = 0
sum g (suc n) = g n + sum g n

pub sum-same : (g h : ℕ → ℕ) (n : ℕ) → ((i : ℕ) → i < n → g i ≡ h i) → sum g n ≡ sum h n
unfolding sum
sum-same g h zero e = refl
sum-same g h (suc n) e = omega (arith, e n (omega arith), sum-same g h n (λ i l. e i (omega arith)))

pub sum-zero : (g : ℕ → ℕ) (n : ℕ) → ((i : ℕ) → i < n → g i ≡ 0) → sum g n ≡ 0
unfolding sum
sum-zero g zero e = refl
sum-zero g (suc n) e = omega (arith, e n (omega arith), sum-zero g n (λ i l. e i (omega arith)))

-- The sum without one of its terms.
abbrev pub sum_but : (ℕ → ℕ) → (j n : ℕ) → ℕ
sum_but g j n = sum (λ i. if i == j then 0 else g i) n

pub sum-split : (g : ℕ → ℕ) (j n : ℕ) → j < n → sum g n ≡ g j + sum_but g j n
unfolding sum
sum-split g j zero h = absurd (omega arith)
sum-split g j (suc n) h = elim (eq_or_ne n j) [
  | inl e ↦ ground (arith, sum-same g (λ i. if i == j then 0 else g i) n (λ i l. ground arith))
  | inr ne ↦ ground (arith, sum-split g j n)
]

pub le-sum : (g : ℕ → ℕ) (j n : ℕ) → j < n → g j ≤ sum g n
le-sum g j n h = omega (arith, sum-split g j n h)

pub le-sum_but : (g : ℕ → ℕ) (i j n : ℕ) → i < n → i ≢ j → g i ≤ sum_but g j n
le-sum_but g i j n h ne = ground (arith, le-sum (λ i. if i == j then 0 else g i) i n h)
