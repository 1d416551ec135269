-- ===== src/TcpInfo/Windows/ToMap.antt =====
-- pkg/tcpinfo/tcpinfo_windows.go: SysInfo.ToMap.
use conniver.Prelude.{List, [], ◌∷◌}
use conniver.Prelude.Fields.{Value, num, Fields, end, Entry, always, put_all}
use conniver.TcpInfo.Windows.SysInfo.{SysInfo}

-- The map literal.
abbrev pub entries : SysInfo → List Entry
entries s =
    always "state" (Value.text s.state_name)
    ∷ always "mss" (num s.mss)
    ∷ always "connectedTimeNS" (num s.connected_time_ns)
    ∷ always "rtt" (num s.rtt)
    ∷ always "rttMin" (num s.rtt_min)
    ∷ always "bytesInFlight" (num s.bytes_in_flight)
    ∷ always "congestionWindow" (num s.congestion_window)
    ∷ always "txWindow" (num s.tx_window)
    ∷ always "rxWindow" (num s.rx_window)
    ∷ always "rxBuffer" (num s.rx_buffer)
    ∷ always "txBytes" (num s.tx_bytes)
    ∷ always "rxBytes" (num s.rx_bytes)
    ∷ always "rxOutOfOrderBytes" (num s.rx_out_of_order_bytes)
    ∷ always "txRetransmitBytes" (num s.tx_retransmit_bytes)
    ∷ always "fastRetransmissions" (num s.fast_retrans)
    ∷ always "duplicateAcksIn" (num s.dup_acks_in)
    ∷ always "timeoutEpisodes" (num s.timeout_episodes)
    ∷ always "synRetransmissions" (num s.syn_retrans)
    ∷ always "sndLimTransRwin" (num s.snd_lim_trans_rwin)
    ∷ always "sndLimTimeRwin" (num s.snd_lim_trans_time_rwin)
    ∷ always "sndLimBytesRwin" (num s.snd_lim_bytes_rwin)
    ∷ always "sndLimTransCwnd" (num s.snd_lim_trans_cwnd)
    ∷ always "sndLimTimeCwnd" (num s.snd_lim_time_cwnd)
    ∷ always "sndLimBytesCwnd" (num s.snd_lim_bytes_cwnd)
    ∷ always "sndLimTransSnd" (num s.snd_lim_trans_snd)
    ∷ always "sndLimTimeSnd" (num s.snd_lim_time_snd)
    ∷ always "sndLimBytesSnd" (num s.snd_lim_bytes_snd)
    ∷ []

unfoldable pub to_map : SysInfo → Fields
to_map s = put_all (entries s) end
