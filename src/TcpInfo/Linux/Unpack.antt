-- ===== src/TcpInfo/Linux/Unpack.antt =====
-- Constants of the kernel's headers, and Unpack of RawTCPInfo.
use Prim.Native.Nat.{bit_and}
use conniver.Prelude.{ℕ, ◌/◌, ◌^◌, false, none, List, [], ◌∷◌, ◌==◌, if◌then◌else◌}
use conniver.Prelude.Text.{Text, codes}
use conniver.Prelude.Words.{microsecond, duration}
use conniver.TcpInfo.Linux.Constants.{
  tcp_close, tcp_close_wait, tcp_closing, tcp_established, tcp_fin_wait1, tcp_fin_wait2,
  tcp_last_ack, tcp_listen, tcp_syn_recv, tcp_syn_sent, tcp_time_wait, tcpi_opt_ecn,
  tcpi_opt_ecn_seen, tcpi_opt_sack, tcpi_opt_syn_data, tcpi_opt_tfo_child, tcpi_opt_timestamps,
  tcpi_opt_usec_ts, tcpi_opt_wscale,
}
use conniver.TcpInfo.Common.{Slice, append_option}
use conniver.TcpInfo.Nullables.{gated}
use conniver.TcpInfo.Linux.Raw.{RawTcpInfo}
use conniver.TcpInfo.Linux.SysInfo.{SysInfo}
use conniver.TcpInfo.Linux.Versions.{Flags}

-- The map has no entry for TCP_NEW_SYN_RECV, 12; a missing key gives the empty string.
abbrev pub tcp_state_map : ℕ → Text
tcp_state_map s =
    if s == tcp_established
    then codes "ESTABLISHED"
    else if s == tcp_syn_sent
    then codes "SYN_SENT"
    else if s == tcp_syn_recv
    then codes "SYN_RECV"
    else if s == tcp_fin_wait1
    then codes "FIN_WAIT1"
    else if s == tcp_fin_wait2
    then codes "FIN_WAIT2"
    else if s == tcp_time_wait
    then codes "TIME_WAIT"
    else if s == tcp_close
    then codes "CLOSE"
    else if s == tcp_close_wait
    then codes "CLOSE_WAIT"
    else if s == tcp_last_ack
    then codes "LAST_ACK"
    else if s == tcp_listen
    then codes "LISTEN"
    else if s == tcp_closing
    then codes "CLOSING"
    else []

abbrev pub tcp_options_map : ℕ → Text
tcp_options_map f =
    if f == tcpi_opt_timestamps
    then codes "Timestamps"
    else if f == tcpi_opt_sack
    then codes "SACK"
    else if f == tcpi_opt_wscale
    then codes "WindowScale"
    else if f == tcpi_opt_ecn
    then codes "ECN"
    else if f == tcpi_opt_ecn_seen
    then codes "ECNSeen"
    else if f == tcpi_opt_syn_data
    then codes "SYNData"
    else if f == tcpi_opt_usec_ts
    then codes "UsecTS"
    else if f == tcpi_opt_tfo_child
    then codes "TFOChild"
    else []

abbrev pub tcp_options : List ℕ
tcp_options =
    tcpi_opt_timestamps ∷ tcpi_opt_sack ∷ tcpi_opt_wscale ∷ tcpi_opt_ecn ∷ tcpi_opt_ecn_seen
    ∷ tcpi_opt_syn_data ∷ tcpi_opt_usec_ts ∷ tcpi_opt_tfo_child ∷ []

-- The fields of the result before the loop over the options.
unfoldable pub unpack_fields : Flags → RawTcpInfo → SysInfo
unpack_fields flags packed = record {
  state = packed.state;
  state_name = tcp_state_map packed.state;
  ca_state = packed.ca_state;
  retransmits = packed.retransmits;
  probes = packed.probes;
  backoff = packed.backoff;
  tx_options = none;
  rx_options = none;
  tx_window_scale = bit_and packed.bitfield0 0x0f;
  rx_window_scale = packed.bitfield0 / 2 ^ 4;
  delivery_rate_app_limited = gated flags.v4_9 false (bit_and packed.bitfield1 1 == 1);
  fast_open_client_fail = gated flags.v5_5 0 (bit_and (packed.bitfield1 / 2 ^ 1) 0x3);
  rto = duration packed.rto microsecond;
  ato = duration packed.ato microsecond;
  tx_mss = packed.snd_mss;
  rx_mss = packed.rcv_mss;
  un_acked = packed.unacked;
  sacked = packed.sacked;
  lost = packed.lost;
  retrans = packed.retrans;
  fackets = packed.fackets;
  last_tx_at = duration packed.last_data_sent microsecond;
  last_tx_ack_at = duration packed.last_ack_sent microsecond;
  last_rx_at = duration packed.last_data_recv microsecond;
  last_rx_ack_at = duration packed.last_ack_recv microsecond;
  pmtu = packed.pmtu;
  rx_ss_threshold = packed.rcv_ssthresh;
  rtt = duration packed.rtt microsecond;
  rtt_var = duration packed.rttvar microsecond;
  tx_ss_threshold = packed.snd_ssthresh;
  tx_c_window = packed.snd_cwnd;
  adv_mss = packed.advmss;
  reordering = packed.reordering;
  rx_rtt = duration packed.rcv_rtt microsecond;
  rx_space = packed.rcv_space;
  total_retrans = packed.total_retrans;
  pacing_rate = gated flags.v3_15 0 packed.pacing_rate;
  max_pacing_rate = gated flags.v3_15 0 packed.max_pacing_rate;
  bytes_acked = gated flags.v4_1 0 packed.bytes_acked;
  bytes_received = gated flags.v4_1 0 packed.bytes_received;
  segs_out = gated flags.v4_2 0 packed.segs_out;
  segs_in = gated flags.v4_2 0 packed.segs_in;
  not_sent_bytes = gated flags.v4_6 0 packed.notsent_bytes;
  min_rtt = gated flags.v4_6 0 (duration packed.min_rtt microsecond);
  data_segs_in = gated flags.v4_6 0 packed.data_segs_in;
  data_segs_out = gated flags.v4_6 0 packed.data_segs_out;
  delivery_rate = gated flags.v4_9 0 packed.delivery_rate;
  busy_time = gated flags.v4_10 0 packed.busy_time;
  rx_window_limited = gated flags.v4_10 0 packed.rwnd_limited;
  tx_buffer_limited = gated flags.v4_10 0 packed.sndbuf_limited;
  delivered = gated flags.v4_18 0 packed.delivered;
  delivered_ce = gated flags.v4_18 0 packed.delivered_ce;
  bytes_sent = gated flags.v4_19 0 packed.bytes_sent;
  bytes_retrans = gated flags.v4_19 0 packed.bytes_retrans;
  dsack_dups = gated flags.v4_19 0 packed.dsack_dups;
  reord_seen = gated flags.v4_19 0 packed.reord_seen;
  rx_out_of_order = gated flags.v5_4 0 packed.rcv_ooopack;
  tx_window = gated flags.v5_4 0 packed.snd_wnd;
  rx_window = gated flags.v6_2 0 packed.rcv_wnd;
  rehash = gated flags.v6_2 0 packed.rehash;
  total_rto = gated flags.v6_2 0 packed.total_rto;
  total_rto_recoveries = gated flags.v6_2 0 packed.total_rto_recoveries;
  total_rto_time = gated flags.v6_2 0 packed.total_rto_time;
  cc_algorithm = [];
  cc_vegas_enabled = record { valid = false; value = 0 };
  cc_vegas_rtt_cnt = record { valid = false; value = 0 };
  cc_vegas_rtt = record { valid = false; value = 0 };
  cc_vegas_rtt_min = record { valid = false; value = 0 };
  cc_bbr_bw_lo = record { valid = false; value = 0 };
  cc_bbr_bw_hi = record { valid = false; value = 0 };
  cc_bbr_min_rtt = record { valid = false; value = 0 };
  cc_bbr_pacing_gain = record { valid = false; value = 0 };
  cc_bbr_cwindow_gain = record { valid = false; value = 0 };
  cc_dctcp_enabled = record { valid = false; value = false };
  cc_dctcp_ce_state = record { valid = false; value = 0 };
  cc_dctcp_alpha = record { valid = false; value = 0 };
  cc_dctcp_ab_ecn = record { valid = false; value = 0 };
  cc_dctcp_ab_tot = record { valid = false; value = 0 };
}

-- One round of the loop over the flags, for one of the two slices and its window scale. The switch
-- has all eight flags of the list: the value is the scale for WSCALE and 0 for the others.
abbrev pub add_option : ℕ → ℕ → ℕ → Slice → Slice
add_option options flag scale os =
    if bit_and options flag == 0
    then os
    else append_option os (record {
      kind = tcp_options_map flag;
      value = if flag == tcpi_opt_wscale then scale else 0;
    })

unfoldable pub add_options : RawTcpInfo → List ℕ → SysInfo → SysInfo
add_options packed [] u = u
add_options packed (flag ∷ flags) u = add_options packed flags (record u {
  tx_options = add_option packed.options flag u.tx_window_scale u.tx_options;
  rx_options = add_option packed.options flag u.rx_window_scale u.rx_options;
})

unfoldable pub unpack : Flags → RawTcpInfo → SysInfo
unfolding unpack_fields add_options
unpack flags packed = add_options packed tcp_options (unpack_fields flags packed)
