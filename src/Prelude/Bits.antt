-- ===== src/Prelude/Bits.antt =====
-- Packing numbers into the digits of a word with shifts and `|`, and taking them out with `&`.
use Prim.Native.Nat.{
  ℕ, zero, suc, ◌+◌, ◌*◌, ◌/◌, ◌%◌, ◌≤◌, ◌<◌, min, max, digits, bitwise, bit_and, bit_or,
  bit_and-bitwise, bit_or-bitwise,
}
use mathlib.Core.Path.{◌≡◌, refl, sym, ◌∙◌, ap}
use native.Mathlib.Omega.{arith}

module _ (z : ℕ → ℕ) (f : ℕ → ℕ → ℕ) where
  -- More fuel than the first number changes nothing.
  digits-more : (n m a b : ℕ) → a ≤ n → a ≤ m → digits z f n a b ≡ digits z f m a b
  digits-more zero zero a b p q = refl
  digits-more zero (suc m) zero b p q = refl
  digits-more zero (suc m) (suc a) b p q = absurd (omega arith)
  digits-more (suc n) zero zero b p q = refl
  digits-more (suc n) zero (suc a) b p q = absurd (omega arith)
  digits-more (suc n) (suc m) zero b p q = refl
  digits-more (suc n) (suc m) (suc a) b p q =
      ap (λ d. d * 2 + f (suc a % 2) (b % 2))
        (digits-more n m (suc a / 2) (b / 2) (omega arith) (omega arith))

  -- The lowest digit and the rest, where the result past the first number has the same law.
  bitwise-low :
      ((b : ℕ) → z b ≡ z (b / 2) * 2 + f 0 (b % 2))
      → (a b : ℕ) → bitwise z f a b ≡ bitwise z f (a / 2) (b / 2) * 2 + f (a % 2) (b % 2)
  bitwise-low h zero b = h b
  bitwise-low h (suc a) b =
      ap (λ d. d * 2 + f (suc a % 2) (b % 2))
        (digits-more a (suc a / 2) (suc a / 2) (b / 2) (omega arith) (omega arith))

or-low : (a b : ℕ) → bit_or a b ≡ bit_or (a / 2) (b / 2) * 2 + max (a % 2) (b % 2)
or-low a b = omega (
  arith,
  bit_or-bitwise a b,
  bit_or-bitwise (a / 2) (b / 2),
  bitwise-low (λ c. c) max (λ c. omega arith) a b,
)

and-low : (a b : ℕ) → bit_and a b ≡ bit_and (a / 2) (b / 2) * 2 + min (a % 2) (b % 2)
and-low a b = omega (
  arith,
  bit_and-bitwise a b,
  bit_and-bitwise (a / 2) (b / 2),
  bitwise-low (λ c. 0) min (λ c. omega arith) a b,
)

-- x << k
shl : ℕ → ℕ → ℕ
shl zero x = x
shl (suc k) x = shl k x * 2

-- x >> k
shr : ℕ → ℕ → ℕ
shr zero x = x
shr (suc k) x = shr k (x / 2)

or_nothing : (f x : ℕ) → x ≤ f → bit_or x 0 ≡ x
or_nothing zero zero h = bit_or-bitwise 0 0
or_nothing zero (suc x) h = absurd (omega arith)
or_nothing (suc f) zero h = bit_or-bitwise 0 0
or_nothing (suc f) (suc x) h =
    omega (arith, or-low (suc x) 0, or_nothing f (suc x / 2) (omega arith))

-- What fits below a shifted number is added by `|`.
or-below : (k x y : ℕ) → shr k y ≡ 0 → bit_or (shl k x) y ≡ shl k x + y
unfolding shl shr
or-below zero x y h = omega (arith, or_nothing x x (omega arith), ap (bit_or x) h)
or-below (suc k) x y h =
    let half : (shl k x * 2) / 2 ≡ shl k x = omega arith in
    omega (arith, or-low (shl k x * 2) y, ap (λ d. bit_or d (y / 2)) half, or-below k x (y / 2) h)

nothing_and : (f x : ℕ) → x ≤ f → bit_and x 0 ≡ 0
nothing_and zero zero h = bit_and-bitwise 0 0
nothing_and zero (suc x) h = absurd (omega arith)
nothing_and (suc f) zero h = bit_and-bitwise 0 0
nothing_and (suc f) (suc x) h =
    omega (arith, and-low (suc x) 0, nothing_and f (suc x / 2) (omega arith))

-- The mask of k ones.
ones : ℕ → ℕ
ones zero = 0
ones (suc k) = ones k * 2 + 1

-- Masking leaves the remainder.
and_ones : (k x : ℕ) → bit_and x (ones k) + shl k (shr k x) ≡ x
unfolding ones shl shr
and_ones zero x = omega (arith, nothing_and x x (omega arith))
and_ones (suc k) x =
    let half : (ones k * 2 + 1) / 2 ≡ ones k = omega arith in
    omega (arith, and-low x (ones k * 2 + 1), ap (bit_and (x / 2)) half, and_ones k (x / 2))

-- A shifted mask passes the shifted number.
and_shl : (k m x : ℕ) → bit_and x (shl k m) ≡ shl k (bit_and (shr k x) m)
unfolding shl shr
and_shl zero m x = refl
and_shl (suc k) m x =
    let half : (shl k m * 2) / 2 ≡ shl k m = omega arith in
    omega (arith, and-low x (shl k m * 2), ap (bit_and (x / 2)) half, and_shl k m (x / 2))

-- The three parts of a version word.
pub pack-words :
    (major minor build : ℕ)
    → major < 256
    → minor < 256
    → bit_or (bit_or (build * 65536) (minor * 256)) major ≡ build * 65536 + minor * 256 + major
unfolding shl shr
pack-words major minor build h k =
    let b : shl 16 build ≡ build * 65536 = omega arith in
    let c : shl 8 (build * 256 + minor) ≡ (build * 256 + minor) * 256 = omega arith in
    let high : bit_or (build * 65536) (minor * 256) ≡ (build * 256 + minor) * 256 =
      ap (λ d. bit_or d (minor * 256)) (sym b)
      ∙ omega (arith, or-below 16 build (minor * 256) (omega arith)) in
    let low : bit_or ((build * 256 + minor) * 256) major ≡ (build * 256 + minor) * 256 + major =
      ap (λ d. bit_or d major) (sym c)
      ∙ omega (arith, or-below 8 (build * 256 + minor) major (omega arith)) in
    ap (λ d. bit_or d major) high ∙ omega (arith, low)

pub and-low_byte : (x : ℕ) → bit_and x 0xff ≡ x % 256
unfolding shl shr ones
and-low_byte x = omega (arith, and_ones 8 x)

pub and-second_byte : (x : ℕ) → bit_and x 0xff00 / 256 ≡ x / 256 % 256
unfolding shl shr ones
and-second_byte x =
    let r : shr 8 x ≡ x / 256 = omega arith in
    omega (arith, and_shl 8 0xff x, ap (λ d. bit_and d 0xff) r, and-low_byte (x / 256))

pub and-high_half : (x : ℕ) → bit_and x 0xffff0000 / 65536 ≡ x / 65536 % 65536
unfolding shl shr ones
and-high_half x =
    let r : shr 16 x ≡ x / 65536 = omega arith in
    omega (arith, and_shl 16 0xffff x, ap (λ d. bit_and d 0xffff) r, and_ones 16 (x / 65536))

and-one : (x : ℕ) → bit_and x 1 ≡ x % 2
unfolding shl shr ones
and-one x = omega (arith, and_ones 1 x)

-- The four lowest flags.
pub and-flags :
    (x : ℕ)
    → (bit_and x 1 ≡ x % 2)
      × (bit_and x 2 ≡ x / 2 % 2 * 2)
      × (bit_and x 4 ≡ x / 4 % 2 * 4)
      × (bit_and x 8 ≡ x / 8 % 2 * 8)
unfolding shl shr ones
and-flags x =
    let r : shr 2 x ≡ x / 4 = omega arith in
    let t : shr 3 x ≡ x / 8 = omega arith in
    (
      and-one x,
      omega (arith, and_shl 1 1 x, and-one (x / 2)),
      omega (arith, and_shl 2 1 x, ap (λ d. bit_and d 1) r, and-one (x / 4)),
      omega (arith, and_shl 3 1 x, ap (λ d. bit_and d 1) t, and-one (x / 8)),
    )
