-- ===== src/TcpInfo/Linux/ToMap.antt =====
-- SysInfo.ToMap.
use conniver.Prelude.{List, [], ◌∷◌, ◌++◌, String}
use conniver.Prelude.Fields.{Value, num, Fields, end, Entry, always, put_all}
use conniver.TcpInfo.Common.{options_value}
use conniver.TcpInfo.Nullables.{Nullable}
use conniver.TcpInfo.Linux.SysInfo.{SysInfo}

-- if x.Valid { r[k] = x.Value }
abbrev pub when {ℓ} : {A : Type ℓ} → String → (A → Value) → Nullable A → Entry
when k f x = record { key = k; valid = x.valid; value = f x.value }

-- The map literal.
abbrev pub plain_entries : SysInfo → List Entry
plain_entries s =
    always "state" (Value.text s.state_name)
    ∷ always "caState" (num s.ca_state)
    ∷ always "retransmits" (num s.retransmits)
    ∷ always "probes" (num s.probes)
    ∷ always "backoff" (num s.backoff)
    ∷ always "txOptions" (options_value s.tx_options)
    ∷ always "rxOptions" (options_value s.rx_options)
    ∷ always "txWindowScale" (num s.tx_window_scale)
    ∷ always "rxWindowScale" (num s.rx_window_scale)
    ∷ always "rto" (num s.rto)
    ∷ always "ato" (num s.ato)
    ∷ always "txMSS" (num s.tx_mss)
    ∷ always "rxMSS" (num s.rx_mss)
    ∷ always "unAcked" (num s.un_acked)
    ∷ always "sacked" (num s.sacked)
    ∷ always "lost" (num s.lost)
    ∷ always "retrans" (num s.retrans)
    ∷ always "fackets" (num s.fackets)
    ∷ always "lastTxAt" (num s.last_tx_at)
    ∷ always "lastTxAckAt" (num s.last_tx_ack_at)
    ∷ always "lastRxAt" (num s.last_rx_at)
    ∷ always "lastRxAckAt" (num s.last_rx_ack_at)
    ∷ always "pmtu" (num s.pmtu)
    ∷ always "rxSSThreshold" (num s.rx_ss_threshold)
    ∷ always "rtt" (num s.rtt)
    ∷ always "rttVar" (num s.rtt_var)
    ∷ always "txSSThreshold" (num s.tx_ss_threshold)
    ∷ always "txCWindow" (num s.tx_c_window)
    ∷ always "advMSS" (num s.adv_mss)
    ∷ always "reordering" (num s.reordering)
    ∷ always "rxRTT" (num s.rx_rtt)
    ∷ always "rxSpace" (num s.rx_space)
    ∷ always "totalRetrans" (num s.total_retrans)
    ∷ always "ccAlgorithm" (Value.text s.cc_algorithm)
    ∷ []

-- The conditional entries, in order.
abbrev pub nullable_entries : SysInfo → List Entry
nullable_entries s =
    when "deliveryRateAppLimited" Value.bool s.delivery_rate_app_limited
    ∷ when "fastOpenClientFail" num s.fast_open_client_fail
    ∷ when "pacingRate" num s.pacing_rate
    ∷ when "maxPacingRate" num s.max_pacing_rate
    ∷ when "bytesAcked" num s.bytes_acked
    ∷ when "bytesReceived" num s.bytes_received
    ∷ when "segsOut" num s.segs_out
    ∷ when "segsIn" num s.segs_in
    ∷ when "notSentBytes" num s.not_sent_bytes
    ∷ when "minRTT" num s.min_rtt
    ∷ when "dataSegsIn" num s.data_segs_in
    ∷ when "dataSegsOut" num s.data_segs_out
    ∷ when "deliveryRate" num s.delivery_rate
    ∷ when "busyTime" num s.busy_time
    ∷ when "rxWindowLimited" num s.rx_window_limited
    ∷ when "txBufferLimited" num s.tx_buffer_limited
    ∷ when "delivered" num s.delivered
    ∷ when "deliveredCE" num s.delivered_ce
    ∷ when "bytesSent" num s.bytes_sent
    ∷ when "bytesRetrans" num s.bytes_retrans
    ∷ when "dsackDups" num s.dsack_dups
    ∷ when "reordSeen" num s.reord_seen
    ∷ when "rxOutOfOrder" num s.rx_out_of_order
    ∷ when "txWindow" num s.tx_window
    ∷ when "rxWindow" num s.rx_window
    ∷ when "rehash" num s.rehash
    ∷ when "totalRTO" num s.total_rto
    ∷ when "totalRTORecoveries" num s.total_rto_recoveries
    ∷ when "totalRTOTime" num s.total_rto_time
    ∷ when "ccVegasEnabled" num s.cc_vegas_enabled
    ∷ when "ccVegasRTTCnt" num s.cc_vegas_rtt_cnt
    ∷ when "ccVegasRTT" num s.cc_vegas_rtt
    ∷ when "ccVegasRTTMin" num s.cc_vegas_rtt_min
    ∷ when "ccBBRBwLo" num s.cc_bbr_bw_lo
    ∷ when "ccBBRBwHi" num s.cc_bbr_bw_hi
    ∷ when "ccBBRMinRTT" num s.cc_bbr_min_rtt
    ∷ when "ccBBRPacingGain" num s.cc_bbr_pacing_gain
    ∷ when "ccBBRCWindowGain" num s.cc_bbr_cwindow_gain
    ∷ when "ccDCTCPEnabled" Value.bool s.cc_dctcp_enabled
    ∷ when "ccDCTCPCEState" num s.cc_dctcp_ce_state
    ∷ when "ccDCTCPAlpha" num s.cc_dctcp_alpha
    ∷ when "ccDCTCPABECN" num s.cc_dctcp_ab_ecn
    ∷ when "ccDCTCPABTOT" num s.cc_dctcp_ab_tot
    ∷ []

unfoldable pub to_map : SysInfo → Fields
to_map s = put_all (plain_entries s ++ nullable_entries s) end
