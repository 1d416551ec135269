-- ===== src/TcpInfo/Darwin/Unpack.antt =====
-- pkg/tcpinfo/tcpinfo_darwin.go: Unpack, with its tables, and GetTCPInfo.
use Prim.Native.Nat.{bit_and}
use conniver.Prelude.{ℕ, Option, none, some, List, [], ◌∷◌, ◌++◌, ◌==◌, if◌then◌else◌, Bool, true}
use conniver.Prelude.Text.{Text, codes}
use conniver.Prelude.Words.{millisecond, duration}
use conniver.TcpInfo.Darwin.Constants.{
  sys_flag_loss_recovery, sys_flag_reordering_detected, tcpci_opt_ecn, tcpci_opt_sack,
  tcpci_opt_timestamps, tcpci_opt_wscale, tcps_close_wait, tcps_closed, tcps_closing,
  tcps_established, tcps_fin_wait_1, tcps_fin_wait_2, tcps_last_ack, tcps_listen, tcps_syn_received,
  tcps_syn_sent, tcps_time_wait,
}
use conniver.TcpInfo.Common.{Slice, append_option}
use conniver.TcpInfo.Darwin.Raw.{RawInfo}
use conniver.TcpInfo.Darwin.SysInfo.{SysInfo}

-- tcpStateMap; a missing key gives the empty string.
abbrev pub tcp_state_map : ℕ → Text
tcp_state_map n =
    if n == tcps_closed
    then codes "CLOSE"
    else if n == tcps_listen
    then codes "LISTEN"
    else if n == tcps_syn_sent
    then codes "SYN_SENT"
    else if n == tcps_syn_received
    then codes "SYN_RECV"
    else if n == tcps_established
    then codes "ESTABLISHED"
    else if n == tcps_close_wait
    then codes "CLOSE_WAIT"
    else if n == tcps_fin_wait_1
    then codes "FIN_WAIT1"
    else if n == tcps_closing
    then codes "CLOSING"
    else if n == tcps_last_ack
    then codes "LAST_ACK"
    else if n == tcps_fin_wait_2
    then codes "FIN_WAIT2"
    else if n == tcps_time_wait
    then codes "TIME_WAIT"
    else []

-- tcpFlagsMap
abbrev pub tcp_flags_map : ℕ → Text
tcp_flags_map n =
    if n == sys_flag_loss_recovery
    then codes "LOSS_RECOVERY"
    else if n == sys_flag_reordering_detected
    then codes "REORDERING_DETECTED"
    else []

abbrev pub tcp_flags : List ℕ
tcp_flags = sys_flag_loss_recovery ∷ sys_flag_reordering_detected ∷ []

-- The loop that collects the names.
abbrev flag_names : ℕ → List ℕ → List Text
flag_names options [] = []
flag_names options (f ∷ fs) =
    let rest = flag_names options fs in
    if bit_and options f == 0 then rest else tcp_flags_map f ∷ rest

-- strings.Join
abbrev join : Text → List Text → Text
join sep [] = []
join sep (s ∷ []) = s
join sep (s ∷ t ∷ ts) = s ++ (sep ++ join sep (t ∷ ts))

unfoldable pub tcp_flags_string : ℕ → Text
tcp_flags_string options = join (codes ",") (flag_names options tcp_flags)

-- tcpOptionsMap
abbrev pub tcp_options_map : ℕ → Text
tcp_options_map n =
    if n == tcpci_opt_timestamps
    then codes "Timestamps"
    else if n == tcpci_opt_sack
    then codes "SACK"
    else if n == tcpci_opt_wscale
    then codes "WindowScale"
    else if n == tcpci_opt_ecn
    then codes "ECN"
    else []

abbrev pub tcp_options : List ℕ
tcp_options = tcpci_opt_timestamps ∷ tcpci_opt_sack ∷ tcpci_opt_wscale ∷ tcpci_opt_ecn ∷ []

-- The assignments before the loop. TxOptions is an empty slice there, RxOptions is nil.
unfoldable pub unpack_fields : RawInfo → SysInfo
unpack_fields packed = record {
  state = packed.state;
  state_name = tcp_state_map packed.state;
  tx_window_scale = packed.send_wscale;
  rx_window_scale = packed.recv_wscale;
  tx_options = some [];
  rx_options = none;
  flags = tcp_flags_string packed.flags;
  rto = duration packed.rto millisecond;
  max_seg = packed.max_seg;
  tx_ss_threshold = packed.send_ss_thresh;
  tx_c_window = packed.send_cwnd;
  tx_window = packed.send_wnd;
  tx_send_buffer_bytes = packed.send_sb_bytes;
  rx_window = packed.recv_wnd;
  rtt_cur = duration packed.rtt_cur millisecond;
  srtt = duration packed.srtt millisecond;
  rtt_var = duration packed.rtt_var millisecond;
  tfo_flags = packed.tfo_flags;
  tx_packets = packed.tx_packets;
  tx_bytes = packed.tx_bytes;
  tx_retransmit_bytes = packed.tx_retransmit_bytes;
  rx_packets = packed.rx_packets;
  rx_bytes = packed.rx_bytes;
  rx_out_of_order_bytes = packed.rx_out_of_order_bytes;
  tx_retransmit_packets = packed.tx_retransmit_packets;
}

-- One round of the loop over the flags, for one of the two slices and its window scale. The switch
-- has all four flags of the list.
abbrev pub add_option : ℕ → ℕ → ℕ → Slice → Slice
add_option options flag scale os =
    if bit_and options flag == 0
    then os
    else append_option os (record {
      kind = tcp_options_map flag;
      value = if flag == tcpci_opt_wscale then scale else 0;
    })

unfoldable pub add_options : RawInfo → List ℕ → SysInfo → SysInfo
add_options packed [] u = u
add_options packed (flag ∷ flags) u = add_options packed flags (record u {
  tx_options = add_option packed.options flag packed.send_wscale u.tx_options;
  rx_options = add_option packed.options flag packed.recv_wscale u.rx_options;
})

unfoldable pub unpack : RawInfo → SysInfo
unfolding unpack_fields add_options
unpack packed = add_options packed tcp_options (unpack_fields packed)

-- The errno of getsockopt (0 is success) and the struct that it has filled in. The named errnos are
-- returned as the same values.
unfoldable pub get_tcp_info : ℕ × RawInfo → Option SysInfo × Option ℕ
get_tcp_info (e, value) = if e == 0 then (some (unpack value), none) else (none, some e)

unfoldable pub supported : Bool
supported = true
