-- ===== src/Prelude/Decimal.antt =====
-- Decimal printing (strconv.FormatUint, fmt's %d) and reading of tokens, on naturals.
use Prim.Native.Nat.{ℕ, zero, suc, ◌+◌, ◌-◌, ◌*◌, ◌/◌, ◌%◌, ◌^◌, ◌≤◌, ◌<◌}
use mathlib.Core.Path.{◌≡◌, refl}
use mathlib.Core.Bool.{Bool, true}
use mathlib.Core.List.{[], ◌∷◌, ◌++◌}
use native.Mathlib.Omega.{arith}
use native.Mathlib.Nat.{pow-suc}
use mathlib.Core.Logic.{inl, inr}
use conniver.Prelude.Tests.{ltb, if◌then◌else◌, Bool-cases}
use conniver.Prelude.Lists.{all, all-append, length, length-append}
use conniver.Prelude.Int.{ℤ, pos, negsuc}
use conniver.Prelude.Text.{Text, is_digit, span, starts_not}

digits : ℕ → ℕ → Text
digits zero n = []
digits (suc f) n =
    let rest = digits f (n / 10) in if ltb n 10 then (n + 48) ∷ [] else rest ++ (n % 10 + 48) ∷ []

-- The number itself is fuel enough: it falls tenfold at each digit.
unfoldable pub decimal : ℕ → Text
unfolding digits
decimal n = digits (suc n) n

-- strconv.FormatInt(i, 10) and %d of an int
unfoldable pub decimal_ℤ : ℤ → Text
decimal_ℤ (pos n) = decimal n
decimal_ℤ (negsuc n) = b'-' ∷ decimal (suc n)

-- The number that a token of digits stands for (strconv.ParseInt, before its range check).
unfoldable pub value_from : ℕ → Text → ℕ
value_from acc [] = acc
value_from acc (c ∷ s) = value_from (acc * 10 + (c - 48)) s

value_from-append :
    (acc : ℕ) (s t : Text) → value_from acc (s ++ t) ≡ value_from (value_from acc s) t
unfolding value_from
value_from-append acc [] t = refl
value_from-append acc (c ∷ s) t = value_from-append (acc * 10 + (c - 48)) s t

value_from-digits : (f n : ℕ) → n < f → value_from 0 (digits f n) ≡ n
unfolding digits value_from
value_from-digits zero n h = absurd (omega arith)
value_from-digits (suc f) n h = elim (Bool-cases (ltb n 10)) [
  | inl small ↦ rw small (omega arith)
  | inr large ↦
      rw (large, value_from-append 0 (digits f (n / 10)) ((n % 10 + 48) ∷ []))
        (ground (arith, value_from-digits f (n / 10)))
]

-- Printing a number and reading the token back gives the number.
pub value_from-decimal : (n : ℕ) → value_from 0 (decimal n) ≡ n
unfolding decimal
value_from-decimal n = value_from-digits (suc n) n (omega arith)

digits-all : (f n : ℕ) → all is_digit (digits f n) ≡ true
unfolding digits
digits-all zero n = refl
digits-all (suc f) n = elim (Bool-cases (ltb n 10)) [
  | inl small ↦ rw small (ground arith)
  | inr large ↦
      rw large (all-append is_digit (digits f (n / 10)) _ (digits-all f (n / 10)) (ground arith))
]

pub decimal-all : (n : ℕ) → all is_digit (decimal n) ≡ true
unfolding decimal
decimal-all n = digits-all (suc n) n

pub span-append :
    (p : ℕ → Bool) (s t : Text) → all p s ≡ true → starts_not p t ≡ true → span p (s ++ t) ≡ (s, t)
span-append p [] [] h k = refl
span-append p [] (c ∷ t) h k = ground arith
span-append p (c ∷ s) t h k = ground (arith, span-append p s t)

digits-cons : (f n : ℕ) → n < f → (c : ℕ) × (s : Text) × (digits f n ≡ c ∷ s)
unfolding digits
digits-cons zero n h = absurd (omega arith)
digits-cons (suc f) n h = elim (Bool-cases (ltb n 10)) [
  | inl small ↦ (n + 48, [], rw small)
  | inr large ↦
      let (c, s, e) = digits-cons f (n / 10) (ground arith) in
      (c, s ++ (n % 10 + 48) ∷ [], rw (large, e))
]

pub decimal-cons : (n : ℕ) → (c : ℕ) × (s : Text) × (decimal n ≡ c ∷ s)
unfolding decimal
decimal-cons n = digits-cons (suc n) n (omega arith)

ltb-true : (a b : ℕ) → a < b → ltb a b ≡ true
ltb-true a b h = ground (arith, h)

-- A number below a power of ten has no more digits than the power.
length-digits : (k f n : ℕ) → n < 10 ^ suc k → length (digits f n) ≤ suc k
unfolding digits
length-digits k zero n h = omega arith
length-digits zero (suc f) n h = rw (ltb-true n 10 (omega (arith, h))) (omega arith)
length-digits (suc k) (suc f) n h = elim (Bool-cases (ltb n 10)) [
  | inl small ↦ rw small (omega arith)
  | inr large ↦
      rw (large, length-append (digits f (n / 10)) ((n % 10 + 48) ∷ []))
        (omega (arith, length-digits k f (n / 10) (omega (arith, pow-suc 10 (suc k), h))))
]

pub length-decimal : (k n : ℕ) → n < 10 ^ suc k → length (decimal n) ≤ suc k
unfolding decimal
length-decimal k n = length-digits k (suc n) n
