-- ===== src/TcpInfo/Windows/Instance.antt =====
-- Windows as a platform of the common code.
use conniver.Prelude.{◌≡◌, refl, none, some}
use conniver.TcpInfo.Platform.{Platform}
use conniver.TcpInfo.Windows.SysInfo.{SysInfo, clone}
use conniver.TcpInfo.Windows.Report.{to_info, warnings}
use conniver.TcpInfo.Windows.ToMap.{to_map}

pub clone-warns_windows :
    (s : SysInfo) → (t : SysInfo) × (clone (some s) ≡ some t) × (warnings t ≡ warnings s)
unfolding clone warnings
clone-warns_windows s = (_, refl, refl)

pub clone-nil_windows : clone none ≡ none
unfolding clone
clone-nil_windows = refl

abbrev pub windows : Platform
windows = record {
  SysInfo = SysInfo;
  clone_sys = clone;
  to_info = to_info;
  sys_warnings = warnings;
  sys_map = to_map;
  clone-none = clone-nil_windows;
  clone-some = clone-warns_windows;
}
