-- ===== src/Kernel/Examples.antt =====
-- The theorems about kernel versions applied to releases.
use conniver.Prelude.{◌≡◌, ◌↔◌, refl, ◌∙◌, pos, negsuc, none, ok, [], ◌∷◌, ◌++◌, arith}
use conniver.Prelude.Text.{codes}
use conniver.Kernel.Version.{VersionInfo, string, compare_kernel_version}
use conniver.Kernel.Release.{parse_release}
use conniver.Kernel.Order.{Older, SameNumbers, compare_kernel_version_lem}
use conniver.Kernel.RoundTrip.{parse_release-string}
use conniver.Kernel.Check.{uname, get_kernel_version, get_kernel_version-padded, wanted}

abbrev ubuntu : VersionInfo
ubuntu = record { kernel = pos 5; major = pos 15; minor = pos 0; flavor = codes "-91-generic" }

parse_release-string_example : parse_release (string ubuntu) ≡ ok ubuntu
parse_release-string_example =
    parse_release-string 5 15 0 (codes "-91-generic") (omega arith) (omega arith) (omega arith) refl
      refl

compare_kernel_version_lem_example :
    ((compare_kernel_version ubuntu (wanted (pos 6) (pos 2) (pos 0)) ≡ negsuc 0)
      ↔ Older ubuntu (wanted (pos 6) (pos 2) (pos 0)))
    × ((compare_kernel_version ubuntu (wanted (pos 6) (pos 2) (pos 0)) ≡ pos 1)
        ↔ Older (wanted (pos 6) (pos 2) (pos 0)) ubuntu)
    × ((compare_kernel_version ubuntu (wanted (pos 6) (pos 2) (pos 0)) ≡ pos 0)
        ↔ SameNumbers ubuntu (wanted (pos 6) (pos 2) (pos 0)))
compare_kernel_version_lem_example =
    compare_kernel_version_lem ubuntu (wanted (pos 6) (pos 2) (pos 0))

known :
    get_kernel_version (uname none (record { release = codes "5.15.0-91-generic" ++ 0 ∷ 0 ∷ [] }))
    ≡ ok ubuntu
unfolding string parse_release conniver.Prelude.Decimal.decimal_ℤ conniver.Prelude.Decimal.decimal
known =
    get_kernel_version-padded (codes "5.15.0-91-generic") (0 ∷ []) refl
    ∙ parse_release-string_example
