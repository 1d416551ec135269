-- ===== src/TcpInfo/Platform.antt =====
-- What the common code and package conniver use of a platform's SysInfo, with the laws of its Clone.
use conniver.Prelude.{◌≡◌, Option, none, some, List}
use conniver.Prelude.Text.{Text}
use conniver.Prelude.Fields.{Fields}
use conniver.TcpInfo.Common.{Info}

pub record Platform : Type 1 where
  pub SysInfo : Type 0
  pub clone_sys : Option SysInfo → Option SysInfo
  pub to_info : SysInfo → Info SysInfo
  pub sys_warnings : SysInfo → List Text
  pub sys_map : SysInfo → Fields
  pub clone-none : clone_sys none ≡ none
  pub clone-some :
      (s : SysInfo)
      → (t : SysInfo) × (clone_sys (some s) ≡ some t) × (sys_warnings t ≡ sys_warnings s)
