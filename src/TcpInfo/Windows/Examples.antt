-- ===== src/TcpInfo/Windows/Examples.antt =====
-- A struct of Windows, and the theorems about it applied.
use conniver.Prelude.{◌≡◌, true}
use conniver.TcpInfo.Windows.Raw.{RawInfoV1}
use conniver.TcpInfo.Windows.Unpack.{unpack_v0, unpack_v1}
use conniver.TcpInfo.Windows.Fallback.{truncated, without_limits, unpack-truncated}

abbrev raw : RawInfoV1
raw = record {
  state = 4;
  mss = 101;
  connection_time_ms = 102;
  timestamps_enabled = true;
  rtt_us = 104;
  min_rtt_us = 105;
  bytes_in_flight = 106;
  cwnd = 107;
  snd_wnd = 108;
  rcv_wnd = 109;
  rcv_buf = 110;
  bytes_out = 111;
  bytes_in = 112;
  bytes_reordered = 113;
  bytes_retrans = 114;
  fast_retrans = 115;
  dup_acks_in = 116;
  timeout_episodes = 117;
  syn_retrans = 118;
  snd_lim_trans_rwin = 119;
  snd_lim_time_rwin = 120;
  snd_lim_bytes_rwin = 121;
  snd_lim_trans_cwnd = 122;
  snd_lim_time_cwnd = 123;
  snd_lim_bytes_cwnd = 124;
  snd_lim_trans_snd = 125;
  snd_lim_time_snd = 126;
  snd_lim_bytes_snd = 127;
}

unpack-truncated_example : unpack_v0 (truncated raw) ≡ without_limits (unpack_v1 raw)
unpack-truncated_example = unpack-truncated raw
