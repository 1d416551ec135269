-- ===== src/TcpInfo/Windows/Unpack.antt =====
-- pkg/tcpinfo/tcpinfo_windows.go: the two Unpack methods and GetTCPInfo.
use conniver.Prelude.{
  ℕ, Option, none, some, Result, ok, err, [], ◌++◌, ◌==◌, if◌then◌else◌, Bool, true,
}
use conniver.Prelude.Text.{Text, codes, ◌=ₜ◌}
use conniver.Prelude.Decimal.{decimal}
use conniver.Prelude.Words.{microsecond, millisecond, duration}
use conniver.TcpInfo.Windows.Constants.{
  tcps_close_wait, tcps_closed, tcps_closing, tcps_established, tcps_fin_wait_1, tcps_fin_wait_2,
  tcps_last_ack, tcps_listen, tcps_syn_received, tcps_syn_sent, tcps_time_wait,
}
use conniver.TcpInfo.Windows.Raw.{RawInfoV0, RawInfoV1}
use conniver.TcpInfo.Windows.SysInfo.{SysInfo}

-- tcpStateMap; a missing key gives the empty string.
abbrev pub tcp_state_map : ℕ → Text
tcp_state_map n =
    if n == tcps_closed
    then codes "CLOSE"
    else if n == tcps_listen
    then codes "LISTEN"
    else if n == tcps_syn_sent
    then codes "SYN_SENT"
    else if n == tcps_syn_received
    then codes "SYN_RECV"
    else if n == tcps_established
    then codes "ESTABLISHED"
    else if n == tcps_fin_wait_1
    then codes "FIN_WAIT1"
    else if n == tcps_fin_wait_2
    then codes "FIN_WAIT2"
    else if n == tcps_close_wait
    then codes "CLOSE_WAIT"
    else if n == tcps_closing
    then codes "CLOSING"
    else if n == tcps_last_ack
    then codes "LAST_ACK"
    else if n == tcps_time_wait
    then codes "TIME_WAIT"
    else []

unfoldable pub unpack_v0 : RawInfoV0 → SysInfo
unpack_v0 packed = record {
  state = packed.state;
  state_name = tcp_state_map packed.state;
  mss = packed.mss;
  connected_time_ns = duration packed.connection_time_ms millisecond;
  rtt = duration packed.rtt_us microsecond;
  rtt_min = duration packed.min_rtt_us microsecond;
  bytes_in_flight = packed.bytes_in_flight;
  congestion_window = packed.cwnd;
  tx_window = packed.snd_wnd;
  rx_window = packed.rcv_wnd;
  rx_buffer = packed.rcv_buf;
  tx_bytes = packed.bytes_out;
  rx_bytes = packed.bytes_in;
  rx_out_of_order_bytes = packed.bytes_reordered;
  tx_retransmit_bytes = packed.bytes_retrans;
  fast_retrans = packed.fast_retrans;
  dup_acks_in = packed.dup_acks_in;
  timeout_episodes = packed.timeout_episodes;
  syn_retrans = packed.syn_retrans;
  snd_lim_trans_rwin = 0;
  snd_lim_trans_time_rwin = 0;
  snd_lim_bytes_rwin = 0;
  snd_lim_trans_cwnd = 0;
  snd_lim_time_cwnd = 0;
  snd_lim_bytes_cwnd = 0;
  snd_lim_trans_snd = 0;
  snd_lim_time_snd = 0;
  snd_lim_bytes_snd = 0;
}

unfoldable pub unpack_v1 : RawInfoV1 → SysInfo
unpack_v1 packed = record {
  state = packed.state;
  state_name = tcp_state_map packed.state;
  mss = packed.mss;
  connected_time_ns = duration packed.connection_time_ms millisecond;
  rtt = duration packed.rtt_us microsecond;
  rtt_min = duration packed.min_rtt_us microsecond;
  bytes_in_flight = packed.bytes_in_flight;
  congestion_window = packed.cwnd;
  tx_window = packed.snd_wnd;
  rx_window = packed.rcv_wnd;
  rx_buffer = packed.rcv_buf;
  tx_bytes = packed.bytes_out;
  rx_bytes = packed.bytes_in;
  rx_out_of_order_bytes = packed.bytes_reordered;
  tx_retransmit_bytes = packed.bytes_retrans;
  fast_retrans = packed.fast_retrans;
  dup_acks_in = packed.dup_acks_in;
  timeout_episodes = packed.timeout_episodes;
  syn_retrans = packed.syn_retrans;
  snd_lim_trans_rwin = packed.snd_lim_trans_rwin;
  snd_lim_trans_time_rwin = duration packed.snd_lim_time_rwin millisecond;
  snd_lim_bytes_rwin = packed.snd_lim_bytes_rwin;
  snd_lim_trans_cwnd = packed.snd_lim_trans_cwnd;
  snd_lim_time_cwnd = duration packed.snd_lim_time_cwnd millisecond;
  snd_lim_bytes_cwnd = packed.snd_lim_bytes_cwnd;
  snd_lim_trans_snd = packed.snd_lim_trans_snd;
  snd_lim_time_snd = duration packed.snd_lim_time_snd millisecond;
  snd_lim_bytes_snd = packed.snd_lim_bytes_snd;
}

-- What WSAIoctl answers when version 1 of the struct is asked for, and when version 0 is; an error is
-- its text.
unfoldable pub get_tcp_info :
    Result Text RawInfoV1 → Result Text RawInfoV0 → Option SysInfo × Option Text
get_tcp_info (ok outbufv1) v0 = (some (unpack_v1 outbufv1), none)
get_tcp_info (err e) (ok outbufv0) = (some (unpack_v0 outbufv0), none)
get_tcp_info (err e) (err e0) = (none, some (codes "could not perform the WSAIoctl: " ++ e0))

unfoldable pub tcp_info_tcp_state_string : ℕ → Text
tcp_info_tcp_state_string state =
    let s = tcp_state_map state in
    if s =ₜ [] then codes "UNKNOWN(" ++ (decimal state ++ codes ")") else s

unfoldable pub supported : Bool
supported = true
