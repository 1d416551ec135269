-- ===== src/TcpInfo/Linux/Instance.antt =====
-- Linux as a platform of the common code.
use conniver.Prelude.{◌≡◌, refl, none, some}
use conniver.TcpInfo.Platform.{Platform}
use conniver.TcpInfo.Linux.SysInfo.{SysInfo, clone}
use conniver.TcpInfo.Linux.Report.{to_info, warnings}
use conniver.TcpInfo.Linux.ToMap.{to_map}

pub clone-warnings :
    (s : SysInfo) → (t : SysInfo) × (clone (some s) ≡ some t) × (warnings t ≡ warnings s)
unfolding clone warnings
clone-warnings s = (_, refl, refl)

pub clone_nil : clone none ≡ none
unfolding clone
clone_nil = refl

abbrev pub linux : Platform
linux = record {
  SysInfo = SysInfo;
  clone_sys = clone;
  to_info = to_info;
  sys_warnings = warnings;
  sys_map = to_map;
  clone-none = clone_nil;
  clone-some = clone-warnings;
}
