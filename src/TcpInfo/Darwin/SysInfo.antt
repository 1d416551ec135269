-- ===== src/TcpInfo/Darwin/SysInfo.antt =====
-- pkg/tcpinfo/tcpinfo_darwin.go: SysInfo and its Clone.
use conniver.Prelude.{ℕ, Option, none, some}
use conniver.Prelude.Text.{Text}
use conniver.TcpInfo.Common.{Slice, clone_options}

pub record SysInfo : Type 0 where
  pub state : ℕ
  pub state_name : Text
  pub tx_window_scale : ℕ
  pub rx_window_scale : ℕ
  pub tx_options : Slice
  pub rx_options : Slice
  pub flags : Text
  pub rto : ℕ
  pub max_seg : ℕ
  pub tx_ss_threshold : ℕ
  pub tx_c_window : ℕ
  pub tx_window : ℕ
  pub tx_send_buffer_bytes : ℕ
  pub rx_window : ℕ
  pub rtt_cur : ℕ
  pub srtt : ℕ
  pub rtt_var : ℕ
  pub tfo_flags : ℕ
  pub tx_packets : ℕ
  pub tx_bytes : ℕ
  pub tx_retransmit_bytes : ℕ
  pub rx_packets : ℕ
  pub rx_bytes : ℕ
  pub rx_out_of_order_bytes : ℕ
  pub tx_retransmit_packets : ℕ

-- Clone of a pointer to SysInfo.
unfoldable pub clone : Option SysInfo → Option SysInfo
clone none = none
clone (some s) =
    some (record s {
      tx_options = clone_options s.tx_options;
      rx_options = clone_options s.rx_options;
    })
