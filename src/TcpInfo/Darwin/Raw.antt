-- ===== src/TcpInfo/Darwin/Raw.antt =====
-- pkg/tcpinfo/tcpinfo_darwin.go: what the system fills in.
use conniver.Prelude.{ℕ}

pub record RawInfo : Type 0 where
  pub state : ℕ
  pub send_wscale : ℕ
  pub recv_wscale : ℕ
  pub options : ℕ
  pub flags : ℕ
  pub rto : ℕ
  pub max_seg : ℕ
  pub send_ss_thresh : ℕ
  pub send_cwnd : ℕ
  pub send_wnd : ℕ
  pub send_sb_bytes : ℕ
  pub recv_wnd : ℕ
  pub rtt_cur : ℕ
  pub srtt : ℕ
  pub rtt_var : ℕ
  pub tfo_flags : ℕ
  pub tx_packets : ℕ
  pub tx_bytes : ℕ
  pub tx_retransmit_bytes : ℕ
  pub rx_packets : ℕ
  pub rx_bytes : ℕ
  pub rx_out_of_order_bytes : ℕ
  pub tx_retransmit_packets : ℕ
