-- ===== src/TcpInfo/Darwin/Instance.antt =====
-- Darwin as a platform of the common code.
use conniver.Prelude.{◌≡◌, refl, none, some}
use conniver.TcpInfo.Platform.{Platform}
use conniver.TcpInfo.Darwin.SysInfo.{SysInfo, clone}
use conniver.TcpInfo.Darwin.Report.{to_info, warnings}
use conniver.TcpInfo.Darwin.ToMap.{to_map}

pub clone-warns_darwin :
    (s : SysInfo) → (t : SysInfo) × (clone (some s) ≡ some t) × (warnings t ≡ warnings s)
unfolding clone warnings
clone-warns_darwin s = (_, refl, refl)

pub clone-nil_darwin : clone none ≡ none
unfolding clone
clone-nil_darwin = refl

abbrev pub darwin : Platform
darwin = record {
  SysInfo = SysInfo;
  clone_sys = clone;
  to_info = to_info;
  sys_warnings = warnings;
  sys_map = to_map;
  clone-none = clone-nil_darwin;
  clone-some = clone-warns_darwin;
}
