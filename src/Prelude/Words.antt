-- ===== src/Prelude/Words.antt =====
-- Machine words as native numbers, with their wrap-around.
use Prim.Native.Nat.{ℕ, ◌*◌, ◌%◌, ◌^◌}

abbrev pub u8 : ℕ → ℕ
u8 n = n % 2 ^ 8

abbrev pub u16 : ℕ → ℕ
u16 n = n % 2 ^ 16

abbrev pub u32 : ℕ → ℕ
u32 n = n % 2 ^ 32

-- An int64 or a uint64, as its bit pattern.
abbrev pub w64 : ℕ → ℕ
w64 n = n % 2 ^ 64

abbrev pub microsecond : ℕ
microsecond = 1000

abbrev pub millisecond : ℕ
millisecond = 1000000

-- time.Duration(n) * unit, an int64 of nanoseconds
unfoldable pub duration : ℕ → ℕ → ℕ
duration n unit = w64 (n * unit)
