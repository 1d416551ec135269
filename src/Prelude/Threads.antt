-- ===== src/Prelude/Threads.antt =====
-- Families indexed by thread number: writing at one number, and sums of weights over the first
-- numbers.
use Prim.Native.Nat.{ℕ, zero, suc, ◌+◌, ◌*◌, ◌≤◌, ◌<◌}
use mathlib.Core.Path.{◌≡◌, refl, ap₂}
use mathlib.Core.Logic.{ite}
use native.Mathlib.Decide.{ℕ_discrete}
use native.Mathlib.Omega.{arith}

module _ {ℓ} {A : Type ℓ} where
  abbrev pub write_at : (ℕ → A) → ℕ → A → ℕ → A
  write_at f i a j = ite (ℕ_discrete i j) a (f j)

module _ {ℓ} {A : Type ℓ} (weight : A → ℕ) where
  unfoldable pub sum_below : ℕ → (ℕ → A) → ℕ
  sum_below zero f = 0
  sum_below (suc n) f = weight (f n) + sum_below n f

  -- Families of equal weights have equal sums.
  pub sum_below-cong :
      (n : ℕ) (f g : ℕ → A)
      → ((i : ℕ) → weight (f i) ≡ weight (g i))
      → sum_below n f ≡ sum_below n g
  unfolding sum_below
  sum_below-cong zero f g h = refl
  sum_below-cong (suc n) f g h = ap₂ ◌+◌ (h n) (sum_below-cong n f g h)

  outside :
      (n : ℕ) (f : ℕ → A) (i : ℕ) (a : A) → n ≤ i → sum_below n (write_at f i a) ≡ sum_below n f
  unfolding sum_below
  outside zero f i a h = refl
  outside (suc n) f i a h = ground (arith, outside n f i a)

  -- A write exchanges one weight for another.
  pub sum_below-write_at :
      (n : ℕ) (f : ℕ → A) (i : ℕ) (a : A)
      → i < n
      → sum_below n (write_at f i a) + weight (f i) ≡ sum_below n f + weight a
  unfolding sum_below
  sum_below-write_at zero f i a h = absurd (omega arith)
  sum_below-write_at (suc n) f i a h = ground (arith, sum_below-write_at n f i a, outside n f i a)

  -- Each weight is part of the sum.
  pub weight-le-sum_below : (n : ℕ) (f : ℕ → A) (i : ℕ) → i < n → weight (f i) ≤ sum_below n f
  unfolding sum_below
  weight-le-sum_below zero f i h = absurd (omega arith)
  weight-le-sum_below (suc n) f i h = ground (arith, weight-le-sum_below n f i)

  pub sum_below-zero : (n : ℕ) (f : ℕ → A) → ((i : ℕ) → weight (f i) ≡ 0) → sum_below n f ≡ 0
  unfolding sum_below
  sum_below-zero zero f h = refl
  sum_below-zero (suc n) f h = omega (arith, h n, sum_below-zero n f h)

  -- Lower weights have a lower sum.
  pub sum_below_mono :
      (n : ℕ) (f g : ℕ → A)
      → ((i : ℕ) → weight (f i) ≤ weight (g i))
      → sum_below n f ≤ sum_below n g
  unfolding sum_below
  sum_below_mono zero f g h = omega arith
  sum_below_mono (suc n) f g h = omega (arith, h n, sum_below_mono n f g h)

  pub sum_below-le-mul :
      (c n : ℕ) (f : ℕ → A) → ((i : ℕ) → weight (f i) ≤ c) → sum_below n f ≤ c * n
  unfolding sum_below
  sum_below-le-mul c zero f h = omega arith
  sum_below-le-mul c (suc n) f h = omega (arith, h n, sum_below-le-mul c n f h)

  -- A positive sum has a positive weight.
  pub sum_below-positive :
      (n : ℕ) (f : ℕ → A) → 0 < sum_below n f → (i : ℕ) × (i < n) × (0 < weight (f i))
  unfolding sum_below
  sum_below-positive zero f h = absurd (omega arith)
  sum_below-positive (suc n) f h = elim (ℕ_discrete (weight (f n)) 0) [
    | yes e ↦ let (i, lt, p) = sum_below-positive n f (omega (arith, e)) in (i, omega arith, p)
    | no ne ↦ (n, omega arith, omega (arith, ne))
  ]

-- A sum of 0 makes the sum of any weight that vanishes with it 0.
pub sum_below-null {ℓ} :
    {A : Type ℓ} (weight v : A → ℕ)
    → ((a : A) → weight a ≡ 0 → v a ≡ 0)
    → (n : ℕ) (f : ℕ → A) → sum_below weight n f ≡ 0
    → sum_below v n f ≡ 0
unfolding sum_below
sum_below-null weight v h zero f e = refl
sum_below-null weight v h (suc n) f e =
    omega (arith, h (f n) (omega arith), sum_below-null weight v h n f (omega arith))
