-- ===== src/Kernel/Version.antt =====
-- VersionInfo, its String and CompareKernelVersion.
use conniver.Prelude.{◌∷◌, ◌++◌, ℤ, pos, negsuc, ltb_ℤ, if◌then◌else◌}
use conniver.Prelude.Text.{Text}
use conniver.Prelude.Decimal.{decimal_ℤ}

pub record VersionInfo : Type 0 where
  pub kernel : ℤ
  pub major : ℤ
  pub minor : ℤ
  pub flavor : Text

-- fmt.Sprintf("%d.%d.%d%s", …)
unfoldable pub string : VersionInfo → Text
string k =
    decimal_ℤ k.kernel ++ (b'.' ∷ (decimal_ℤ k.major ++ (b'.' ∷ (decimal_ℤ k.minor ++ k.flavor))))

unfoldable pub compare_kernel_version : VersionInfo → VersionInfo → ℤ
compare_kernel_version a b =
    if ltb_ℤ a.kernel b.kernel
    then negsuc 0
    else if ltb_ℤ b.kernel a.kernel
    then pos 1
    else if ltb_ℤ a.major b.major
    then negsuc 0
    else if ltb_ℤ b.major a.major
    then pos 1
    else if ltb_ℤ a.minor b.minor
    then negsuc 0
    else if ltb_ℤ b.minor a.minor
    then pos 1
    else pos 0
