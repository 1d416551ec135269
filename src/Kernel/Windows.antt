-- ===== src/Kernel/Windows.antt =====
-- pkg/kernel/kernel_windows.go: the kernel version of Windows from its packed word.
use Prim.Native.Nat.{bit_and}
use conniver.Prelude.{
  ℕ, ◌+◌, ◌*◌, ◌/◌, ◌^◌, ◌<◌, ◌≡◌, Option, none, some, Result, ok, err, ◌∷◌, ◌++◌, arith,
}
use conniver.Prelude.Text.{Text, codes}
use conniver.Prelude.Decimal.{decimal}
use conniver.Prelude.Bits.{and-low_byte, and-second_byte, and-high_half}

pub record WindowsVersionInfo : Type 0 where
  pub kvi : Text
  pub major : ℕ
  pub minor : ℕ
  pub build : ℕ

-- fmt.Sprintf("%d.%d %d (%s)", …)
unfoldable pub string : WindowsVersionInfo → Text
string k =
    decimal k.major
    ++ (b'.'
        ∷ (decimal k.minor ++ (b' ' ∷ (decimal k.build ++ (codes " (" ++ (k.kvi ++ codes ")"))))))

abbrev unknown : WindowsVersionInfo
unknown = record { kvi = codes "Unknown"; major = 0; minor = 0; build = 0 }

-- The three parts of GetVersion's word.
abbrev with_word : WindowsVersionInfo → ℕ → WindowsVersionInfo
with_word k word = record k {
  major = bit_and word 0xff;
  minor = bit_and word 0xff00 / 2 ^ 8;
  build = bit_and word 0xffff0000 / 2 ^ 16;
}

module _ {ℓ} {E : Type ℓ} where
  -- The version and the error, from what opening the registry key, reading BuildLabEx and GetVersion
  -- answer. An error leaves the parts that were read before it.
  unfoldable pub get_kernel_version :
      Option E → Result E Text → Result E ℕ → WindowsVersionInfo × Option E
  get_kernel_version (some e) blex word = (unknown, some e)
  get_kernel_version none (err e) word = (unknown, some e)
  get_kernel_version none (ok blex) (err e) = (record unknown { kvi = blex }, some e)
  get_kernel_version none (ok blex) (ok word) =
      (with_word (record unknown { kvi = blex }) word, none)

-- Where the registry and GetVersion answer, the three numbers make up the whole word of 32 bits, each
-- in its own field.
pub get_kernel_version-word :
    (blex : Text) (word : ℕ)
    → word < 2 ^ 32
    → let k : WindowsVersionInfo = (get_kernel_version {E = Text} none (ok blex) (ok word)).0 in
      (k.build * 2 ^ 16 + k.minor * 2 ^ 8 + k.major ≡ word)
      × (k.major < 2 ^ 8)
      × (k.minor < 2 ^ 8)
      × (k.build < 2 ^ 16)
unfolding get_kernel_version
get_kernel_version-word blex word h =
    omega (arith, and-low_byte word, and-second_byte word, and-high_half word)
