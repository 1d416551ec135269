-- ===== src/Kernel/Release.antt =====
-- ParseRelease.
use conniver.Prelude.{Result, ok, err, ltb, ◌++◌, if◌then◌else◌}
use conniver.Prelude.Text.{Text, codes}
use conniver.Kernel.Scan.{Scanned, sscanf_release, sscanf_partial}
use conniver.Kernel.Version.{VersionInfo}

-- The flavor is the partial text itself where no minor number is found in it.
unfoldable pub with_partial : Scanned → VersionInfo
with_partial v =
    let (parsed, minor, flavor) = sscanf_partial v.partial in
    record {
      kernel = v.kernel;
      major = v.major;
      minor = minor;
      flavor = if ltb parsed 1 then v.partial else flavor;
    }

unfoldable pub parse_release : Text → Result Text VersionInfo
parse_release release =
    let v = sscanf_release release in
    if ltb v.parsed 2
    then err (codes "Can't parse kernel version " ++ release)
    else ok (with_partial v)
