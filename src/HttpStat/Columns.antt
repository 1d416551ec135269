-- ===== src/HttpStat/Columns.antt =====
-- The columns of the printed table keep their widths.
use conniver.Prelude.{
  ℕ, zero, suc, ◌-◌, ◌/◌, ◌<◌, ◌≡◌, refl, ◌++◌, pos, length, length-append, arith,
}
use conniver.Prelude.Text.{codes}
use conniver.Prelude.Words.{millisecond}
use conniver.Prelude.Decimal.{decimal, decimal_ℤ, length-decimal}
use conniver.HttpStat.Timing.{in_ms, spaces, fmta, fmtb}

length-spaces : (n : ℕ) → length (spaces n) ≡ n
length-spaces zero = refl
length-spaces (suc n) = omega (arith, length-spaces n)

-- A duration of less than ten million milliseconds takes nine columns in either format.
pub fmt-width :
    (n : ℕ) → n / millisecond < 10000000 → (length (fmta (pos n)) ≡ 9) × (length (fmtb (pos n)) ≡ 9)
unfolding fmta fmtb in_ms decimal_ℤ
fmt-width n h =
    let s = decimal (n / millisecond) in
    let few = length-decimal 6 (n / millisecond) (omega (arith, h)) in
    (
      omega (
        arith,
        few,
        length-append (spaces (7 - length s) ++ s) (codes "ms"),
        length-append (spaces (7 - length s)) s,
        length-spaces (7 - length s),
      ),
      omega (
        arith,
        few,
        length-append s (codes "ms"),
        length-spaces (9 - length (s ++ codes "ms")),
        length-append (s ++ codes "ms") (spaces (9 - length (s ++ codes "ms"))),
      ),
    )
