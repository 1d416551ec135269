-- ===== src/TcpInfo/Windows/Report.antt =====
-- pkg/tcpinfo/tcpinfo_windows.go: ToInfo and Warnings.
use conniver.Prelude.{none, some, List, ◌++◌, ltb}
use conniver.Prelude.Text.{Text, codes}
use conniver.TcpInfo.Common.{Info, warn}
use conniver.TcpInfo.Windows.SysInfo.{SysInfo}

-- The fields that the literal leaves out are zero.
unfoldable pub to_info : SysInfo → Info SysInfo
to_info s = record {
  state = s.state_name;
  tx_options = none;
  rx_options = none;
  tx_mss = s.mss;
  rx_mss = 0;
  rtt = s.rtt_min;
  rtt_var = 0;
  rto = 0;
  ato = 0;
  last_tx_at = 0;
  last_rx_at = 0;
  last_tx_ack_at = 0;
  last_rx_ack_at = 0;
  rx_window = s.rx_window;
  tx_ss_threshold = 0;
  rx_ss_threshold = 0;
  tx_window_bytes = 0;
  tx_window_segs = s.tx_window;
  retransmits = s.syn_retrans;
  sys = some s;
}

unfoldable pub warnings : SysInfo → List Text
warnings s =
    warn (ltb 0 s.tx_retransmit_bytes) (codes "retransmitBytes=") s.tx_retransmit_bytes
    ++ (warn (ltb 0 s.syn_retrans) (codes "retransmitSyn=") s.syn_retrans
        ++ (warn (ltb 0 s.rx_out_of_order_bytes) (codes "outOfOrderBytes=") s.rx_out_of_order_bytes
            ++ (warn (ltb 0 s.timeout_episodes) (codes "timeoutEpisodes=") s.timeout_episodes
                ++ (warn (ltb 0 s.dup_acks_in) (codes "duplicateAcksIn=") s.dup_acks_in
                    ++ (warn (ltb 0 s.fast_retrans) (codes "fastRetransmissions=")
                        s.fast_retrans)))))
