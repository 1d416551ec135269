-- ===== src/OsVersion/Version.antt =====
-- pkg/osversion/osversion_windows.go: the version of Windows, packed and apart.
use Prim.Native.Nat.{bit_or}
use conniver.Prelude.{ℕ, ◌*◌, ◌^◌, Option, none, some, Result, ok, err, ◌∷◌, ◌++◌}
use conniver.Prelude.Text.{Text, codes}
use conniver.Prelude.Decimal.{decimal}
use conniver.Prelude.Words.{u8, u16, u32}

-- What RtlGetVersion answers: three uint32.
pub record VersionEx : Type 0 where
  pub major_version : ℕ
  pub minor_version : ℕ
  pub build_number : ℕ

pub record OsVersion : Type 0 where
  pub version : ℕ
  pub major_version : ℕ
  pub minor_version : ℕ
  pub build : ℕ

-- The function that Get runs once.
unfoldable pub from_system : VersionEx → OsVersion
from_system v = record {
  version =
      bit_or (bit_or (u32 (v.build_number * 2 ^ 16)) (u32 (v.minor_version * 2 ^ 8)))
        v.major_version;
  major_version = u8 v.major_version;
  minor_version = u8 v.minor_version;
  build = u16 v.build_number;
}

-- Get, with the package variables osv and once as state: `none` before the first call. `v` is what
-- the system would answer at this call.
unfoldable pub get : Option OsVersion → VersionEx → Option OsVersion × OsVersion
get none v = (some (from_system v), from_system v)
get (some osv) v = (some osv, osv)

-- Build
unfoldable pub build_number : Option OsVersion → VersionEx → Option OsVersion × ℕ
build_number once v = let (once', osv) = get once v in (once', osv.build)

-- fmt.Sprintf("%d.%d.%d", …)
unfoldable pub string : OsVersion → Text
string v = decimal v.major_version ++ (b'.' ∷ (decimal v.minor_version ++ (b'.' ∷ decimal v.build)))

-- BuildRevision, from what opening the registry key and reading its value answer. The wrapped error
-- keeps its text behind a prefix.
unfoldable pub build_revision : Option Text → Result Text ℕ → Result Text ℕ
build_revision (some e) ubr = err (codes "open `CurrentVersion` registry key: " ++ e)
build_revision none (err e) = err (codes "read `UBR` from registry: " ++ e)
build_revision none (ok s) = ok (u32 s)
