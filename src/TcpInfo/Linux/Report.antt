-- ===== src/TcpInfo/Linux/Report.antt =====
-- ToInfo, Warnings and the interface to the common code.
use conniver.Prelude.{◌&&◌, some, List, ◌++◌, ltb}
use conniver.Prelude.Text.{Text, codes}
use conniver.TcpInfo.Common.{Info, warn}
use conniver.TcpInfo.Linux.SysInfo.{SysInfo}

-- The fields that the literal leaves out are zero.
unfoldable pub to_info : SysInfo → Info SysInfo
to_info s = record {
  state = s.state_name;
  tx_options = s.tx_options;
  rx_options = s.rx_options;
  tx_mss = s.tx_mss;
  rx_mss = s.rx_mss;
  rtt = s.rtt;
  rtt_var = s.rtt_var;
  rto = s.rto;
  ato = s.ato;
  last_tx_at = s.last_tx_at;
  last_rx_at = s.last_rx_at;
  last_tx_ack_at = s.last_tx_ack_at;
  last_rx_ack_at = s.last_rx_ack_at;
  rx_window = s.rx_space;
  tx_ss_threshold = s.tx_ss_threshold;
  rx_ss_threshold = s.rx_ss_threshold;
  tx_window_bytes = 0;
  tx_window_segs = s.tx_c_window;
  retransmits = s.total_retrans;
  sys = some s;
}

unfoldable pub warnings : SysInfo → List Text
warnings s =
    warn (s.bytes_retrans.valid && ltb 0 s.bytes_retrans.value) (codes "retransBytes=")
      s.bytes_retrans.value
    ++ (warn (ltb 0 s.total_retrans) (codes "retransTotal=") s.total_retrans
        ++ (warn (ltb 0 s.backoff) (codes "backoff=") s.backoff
            ++ (warn (s.rx_out_of_order.valid && ltb 0 s.rx_out_of_order.value)
                  (codes "outOfOrderBytes=") s.rx_out_of_order.value
                ++ (warn (s.tx_buffer_limited.valid && ltb 0 s.tx_buffer_limited.value)
                      (codes "txSendBufferLimited=") s.tx_buffer_limited.value
                    ++ warn (s.rx_window_limited.valid && ltb 0 s.rx_window_limited.value)
                        (codes "rxWindowLimited=") s.rx_window_limited.value))))
