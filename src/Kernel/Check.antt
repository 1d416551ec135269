-- ===== src/Kernel/Check.antt =====
-- pkg/kernel/kernel_unix.go, uname_unix.go and uname_unsupported.go: GetKernelVersion and
-- CheckKernelVersion. What unix.Uname answers is an argument.
use conniver.Prelude.{
  Option, none, some, Result, ok, err, ◌≡◌, refl, ap, ◌↔◌, Bool, true, false, not, ℤ, pos, ltb_ℤ,
  arith, if◌then◌else◌, ◌==◌, all, [], ◌∷◌, ◌++◌,
}
use conniver.Prelude.Text.{Text, codes, up_to_nul}
use conniver.Kernel.Version.{VersionInfo, compare_kernel_version}
use conniver.Kernel.Release.{parse_release}
use conniver.Kernel.Order.{Older, at_least-Older}

-- The field Release of unix.Utsname, an array of bytes.
pub record Utsname : Type 0 where
  pub release : Text

-- uname, from the error of unix.Uname and what it has written.
abbrev pub uname : Option Text → Utsname → Result Text Utsname
uname (some e) uts = err e
uname none uts = ok uts

-- uname on other platforms
abbrev pub uname_unsupported : Result Text Utsname
uname_unsupported = err (codes "kernel version detection is not available on this platform")

unfoldable pub get_kernel_version : Result Text Utsname → Result Text VersionInfo
get_kernel_version (err e) = err e
get_kernel_version (ok uts) = parse_release (up_to_nul uts.release)

abbrev pub wanted : ℤ → ℤ → ℤ → VersionInfo
wanted k major minor = record { kernel = k; major = major; minor = minor; flavor = [] }

-- The comparison that CheckKernelVersion makes once it has a version.
check_version : VersionInfo → ℤ → ℤ → ℤ → Result Text Bool
check_version v k major minor =
    if ltb_ℤ (compare_kernel_version v (wanted k major minor)) (pos 0) then ok false else ok true

unfoldable pub check_kernel_version : Result Text Utsname → ℤ → ℤ → ℤ → Result Text Bool
unfolding check_version
check_kernel_version answer k major minor = elim (get_kernel_version answer) [
  | err e ↦ err e
  | ok v ↦ check_version v k major minor
]

up_to_nul-padded :
    (s rest : Text) → all (λ c. not (c == 0)) s ≡ true → up_to_nul (s ++ 0 ∷ rest) ≡ s
up_to_nul-padded [] rest h = refl
up_to_nul-padded (c ∷ s) rest h = ground (arith, up_to_nul-padded s rest)

-- What the kernel writes behind the NUL that ends the release does not matter, nor where the array
-- ends.
pub get_kernel_version-padded :
    (release rest : Text)
    → all (λ c. not (c == 0)) release ≡ true
    → get_kernel_version (uname none (record { release = release ++ 0 ∷ rest }))
      ≡ parse_release release
unfolding get_kernel_version
get_kernel_version-padded release rest h = ap parse_release (up_to_nul-padded release rest h)

check_version-Older :
    (v : VersionInfo) (k major minor : ℤ)
    → (check_version v k major minor ≡ ok false) ↔ Older v (wanted k major minor)
unfolding check_version
check_version-Older v k major minor =
    let h = at_least-Older v (wanted k major minor) in
    (λ q. h.0 (ground arith), λ o. let p = h.1 o in ground arith)

-- Where the kernel's version is known, the check refuses exactly the kernels that are older than
-- the wanted numbers.
pub check_kernel_version-Older :
    (answer : Result Text Utsname) (v : VersionInfo) (k major minor : ℤ)
    → get_kernel_version answer ≡ ok v
    → (check_kernel_version answer k major minor ≡ ok false) ↔ Older v (wanted k major minor)
unfolding check_kernel_version
check_kernel_version-Older answer v k major minor h =
    rw (h, check_kernel_version) (check_version-Older v k major minor)
