-- ===== src/TcpInfo/Windows/Raw.antt =====
-- pkg/tcpinfo/tcpinfo_windows.go: what the system fills in.
use conniver.Prelude.{ℕ, Bool}

pub record RawInfoV0 : Type 0 where
  pub state : ℕ
  pub mss : ℕ
  pub connection_time_ms : ℕ
  pub timestamps_enabled : Bool
  pub rtt_us : ℕ
  pub min_rtt_us : ℕ
  pub bytes_in_flight : ℕ
  pub cwnd : ℕ
  pub snd_wnd : ℕ
  pub rcv_wnd : ℕ
  pub rcv_buf : ℕ
  pub bytes_out : ℕ
  pub bytes_in : ℕ
  pub bytes_reordered : ℕ
  pub bytes_retrans : ℕ
  pub fast_retrans : ℕ
  pub dup_acks_in : ℕ
  pub timeout_episodes : ℕ
  pub syn_retrans : ℕ

pub record RawInfoV1 : Type 0 where
  pub state : ℕ
  pub mss : ℕ
  pub connection_time_ms : ℕ
  pub timestamps_enabled : Bool
  pub rtt_us : ℕ
  pub min_rtt_us : ℕ
  pub bytes_in_flight : ℕ
  pub cwnd : ℕ
  pub snd_wnd : ℕ
  pub rcv_wnd : ℕ
  pub rcv_buf : ℕ
  pub bytes_out : ℕ
  pub bytes_in : ℕ
  pub bytes_reordered : ℕ
  pub bytes_retrans : ℕ
  pub fast_retrans : ℕ
  pub dup_acks_in : ℕ
  pub timeout_episodes : ℕ
  pub syn_retrans : ℕ
  pub snd_lim_trans_rwin : ℕ
  pub snd_lim_time_rwin : ℕ
  pub snd_lim_bytes_rwin : ℕ
  pub snd_lim_trans_cwnd : ℕ
  pub snd_lim_time_cwnd : ℕ
  pub snd_lim_bytes_cwnd : ℕ
  pub snd_lim_trans_snd : ℕ
  pub snd_lim_time_snd : ℕ
  pub snd_lim_bytes_snd : ℕ
