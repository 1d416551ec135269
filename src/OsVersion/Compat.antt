-- ===== src/OsVersion/Compat.antt =====
-- pkg/osversion/platform_compat_windows.go.
use conniver.Prelude.{
  ℕ, ◌≤◌, ◌<◌, ◌≡◌, ◌↔◌, ◌⊎◌, Bool, true, false, not, ◌&&◌, ◌||◌, List, [], ◌∷◌, ltb, leb, ◌==◌,
  if◌then◌else◌, all, arith,
}
use conniver.OsVersion.Builds.{ltsc2022, ltsc2025}
use conniver.OsVersion.Version.{OsVersion}

-- compatLTSCReleases from its last entry to its first, as the loop runs through it.
abbrev pub compat_ltsc_releases : List ℕ
compat_ltsc_releases = ltsc2025 ∷ ltsc2022 ∷ []

-- The loop: the latest release that is earlier than the build.
unfoldable pub supported_ltsc_release : ℕ → List ℕ → ℕ
supported_ltsc_release build [] = ltsc2022
supported_ltsc_release build (r ∷ rs) =
    let rest = supported_ltsc_release build rs in if ltb r build then r else rest

unfoldable pub check_host_and_container_compat : OsVersion → OsVersion → Bool
check_host_and_container_compat host ctr =
    if not (host.major_version == ctr.major_version)
      || not (host.minor_version == ctr.minor_version)
    then false
    else if ltb host.build ltsc2022
    then host.build == ctr.build
    else (let supported = supported_ltsc_release host.build compat_ltsc_releases in
        leb supported ctr.build && leb ctr.build host.build)

-- What the documentation promises of two builds: before LTSC 2022 they are the same; from then on the
-- container is not newer than the host, and no long-term release lies strictly between the two.
abbrev pub Runs : ℕ → ℕ → Type 0
Runs host ctr =
    ((host < ltsc2022) × (host ≡ ctr))
    ⊎ ((ltsc2022 ≤ ctr)
        × (ctr ≤ host)
        × (all (λ r. not (ltb ctr r && ltb r host)) compat_ltsc_releases ≡ true))

-- The check accepts a container exactly where its major and minor versions are the host's and the
-- host runs its build: before LTSC 2022 the same build, from then on one that is from LTSC 2022 on,
-- not newer than the host, and with no long-term release strictly between the two.
pub check_host_and_container_compat_lem :
    (host ctr : OsVersion)
    → (check_host_and_container_compat host ctr ≡ true) ↔ (
        (host.major_version ≡ ctr.major_version)
        × (host.minor_version ≡ ctr.minor_version)
        × Runs host.build ctr.build)
unfolding check_host_and_container_compat supported_ltsc_release
check_host_and_container_compat_lem host ctr = (λ h. ground arith, λ h. ground arith)
