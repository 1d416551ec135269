-- ===== src/TcpInfo/Other.antt =====
-- pkg/tcpinfo/tcpinfo_other.go: platforms without TCP information.
use conniver.Prelude.{◌≡◌, refl, Bool, false, Option, none, some, List, [], ◌++◌}
use conniver.Prelude.Text.{Text, codes}
use conniver.Prelude.Fields.{Fields, end}
use conniver.TcpInfo.Common.{Info}
use conniver.TcpInfo.Platform.{Platform}

pub data SysInfo : Type 0 where
  empty : SysInfo

unfoldable pub clone : Option SysInfo → Option SysInfo
clone none = none
clone (some s) = some s

-- &Info{}
unfoldable pub to_info : SysInfo → Info SysInfo
to_info s = record {
  state = [];
  tx_options = none;
  rx_options = none;
  tx_mss = 0;
  rx_mss = 0;
  rtt = 0;
  rtt_var = 0;
  rto = 0;
  ato = 0;
  last_tx_at = 0;
  last_rx_at = 0;
  last_tx_ack_at = 0;
  last_rx_ack_at = 0;
  rx_window = 0;
  tx_ss_threshold = 0;
  rx_ss_threshold = 0;
  tx_window_bytes = 0;
  tx_window_segs = 0;
  retransmits = 0;
  sys = none;
}

unfoldable pub warnings : SysInfo → List Text
warnings s = []

unfoldable pub to_map : SysInfo → Fields
to_map s = end

-- The argument is runtime.GOOS.
unfoldable pub get_tcp_info : Text → Option SysInfo × Option Text
get_tcp_info goos = (none, some (goos ++ codes " is unsupported"))

unfoldable pub supported : Bool
supported = false

pub clone-warns_other :
    (s : SysInfo) → (t : SysInfo) × (clone (some s) ≡ some t) × (warnings t ≡ warnings s)
unfolding clone warnings
clone-warns_other s = (s, refl, refl)

pub clone-nil_other : clone none ≡ none
unfolding clone
clone-nil_other = refl

abbrev pub other : Platform
other = record {
  SysInfo = SysInfo;
  clone_sys = clone;
  to_info = to_info;
  sys_warnings = warnings;
  sys_map = to_map;
  clone-none = clone-nil_other;
  clone-some = clone-warns_other;
}
