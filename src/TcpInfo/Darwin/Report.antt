-- ===== src/TcpInfo/Darwin/Report.antt =====
-- pkg/tcpinfo/tcpinfo_darwin.go: ToInfo and Warnings.
use conniver.Prelude.{some, List, ◌++◌, ltb}
use conniver.Prelude.Text.{Text, codes}
use conniver.TcpInfo.Common.{Info, warn}
use conniver.TcpInfo.Darwin.SysInfo.{SysInfo}

-- The fields that the literal leaves out are zero.
unfoldable pub to_info : SysInfo → Info SysInfo
to_info s = record {
  state = s.state_name;
  tx_options = s.tx_options;
  rx_options = s.rx_options;
  tx_mss = s.max_seg;
  rx_mss = s.max_seg;
  rtt = s.srtt;
  rtt_var = s.rtt_var;
  rto = s.rto;
  ato = 0;
  last_tx_at = 0;
  last_rx_at = 0;
  last_tx_ack_at = 0;
  last_rx_ack_at = 0;
  rx_window = s.rx_window;
  tx_ss_threshold = s.tx_ss_threshold;
  rx_ss_threshold = 0;
  tx_window_bytes = s.tx_c_window;
  tx_window_segs = s.tx_window;
  retransmits = s.tx_retransmit_packets;
  sys = some s;
}

unfoldable pub warnings : SysInfo → List Text
warnings s =
    warn (ltb 0 s.tx_retransmit_bytes) (codes "retransmitBytes=") s.tx_retransmit_bytes
    ++ (warn (ltb 0 s.tx_retransmit_packets) (codes "retransmitPackets=") s.tx_retransmit_packets
        ++ (warn (ltb 0 s.rx_out_of_order_bytes) (codes "outOfOrderBytes=")
            s.rx_out_of_order_bytes))
