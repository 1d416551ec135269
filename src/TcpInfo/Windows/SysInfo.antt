-- ===== src/TcpInfo/Windows/SysInfo.antt =====
-- pkg/tcpinfo/tcpinfo_windows.go: SysInfo and its Clone.
use conniver.Prelude.{ℕ, Option, none, some}
use conniver.Prelude.Text.{Text}

pub record SysInfo : Type 0 where
  pub state : ℕ
  pub state_name : Text
  pub mss : ℕ
  pub connected_time_ns : ℕ
  pub rtt : ℕ
  pub rtt_min : ℕ
  pub bytes_in_flight : ℕ
  pub congestion_window : ℕ
  pub tx_window : ℕ
  pub rx_window : ℕ
  pub rx_buffer : ℕ
  pub tx_bytes : ℕ
  pub rx_bytes : ℕ
  pub rx_out_of_order_bytes : ℕ
  pub tx_retransmit_bytes : ℕ
  pub fast_retrans : ℕ
  pub dup_acks_in : ℕ
  pub timeout_episodes : ℕ
  pub syn_retrans : ℕ
  pub snd_lim_trans_rwin : ℕ
  pub snd_lim_trans_time_rwin : ℕ
  pub snd_lim_bytes_rwin : ℕ
  pub snd_lim_trans_cwnd : ℕ
  pub snd_lim_time_cwnd : ℕ
  pub snd_lim_bytes_cwnd : ℕ
  pub snd_lim_trans_snd : ℕ
  pub snd_lim_time_snd : ℕ
  pub snd_lim_bytes_snd : ℕ

-- Clone of a pointer to SysInfo.
unfoldable pub clone : Option SysInfo → Option SysInfo
clone none = none
clone (some s) = some s
