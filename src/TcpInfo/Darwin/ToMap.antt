-- ===== src/TcpInfo/Darwin/ToMap.antt =====
-- pkg/tcpinfo/tcpinfo_darwin.go: SysInfo.ToMap.
use conniver.Prelude.{List, [], ◌∷◌}
use conniver.Prelude.Fields.{Value, num, Fields, end, Entry, always, put_all}
use conniver.TcpInfo.Common.{options_value}
use conniver.TcpInfo.Darwin.SysInfo.{SysInfo}

-- The map literal.
abbrev pub entries : SysInfo → List Entry
entries s =
    always "state" (Value.text s.state_name)
    ∷ always "txWindowScale" (num s.tx_window_scale)
    ∷ always "rxWindowScale" (num s.rx_window_scale)
    ∷ always "txOptions" (options_value s.tx_options)
    ∷ always "rxOptions" (options_value s.rx_options)
    ∷ always "flags" (Value.text s.flags)
    ∷ always "rto" (num s.rto)
    ∷ always "mss" (num s.max_seg)
    ∷ always "txSSThreshold" (num s.tx_ss_threshold)
    ∷ always "txCWindowBytes" (num s.tx_c_window)
    ∷ always "txWindow" (num s.tx_window)
    ∷ always "txSendBufferBytes" (num s.tx_send_buffer_bytes)
    ∷ always "rxWindow" (num s.rx_window)
    ∷ always "rttCur" (num s.rtt_cur)
    ∷ always "rttSmoothed" (num s.srtt)
    ∷ always "rttVar" (num s.rtt_var)
    ∷ always "tfoFlags" (num s.tfo_flags)
    ∷ always "txPackets" (num s.tx_packets)
    ∷ always "txBytes" (num s.tx_bytes)
    ∷ always "txRetransmitBytes" (num s.tx_retransmit_bytes)
    ∷ always "rxPackets" (num s.rx_packets)
    ∷ always "rxBytes" (num s.rx_bytes)
    ∷ always "rxOutOfOrderBytes" (num s.rx_out_of_order_bytes)
    ∷ always "txRetransmitPackets" (num s.tx_retransmit_packets)
    ∷ []

unfoldable pub to_map : SysInfo → Fields
to_map s = put_all (entries s) end
