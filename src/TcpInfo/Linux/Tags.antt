-- ===== src/TcpInfo/Linux/Tags.antt =====
-- The keys of SysInfo.ToMap against the JSON tags of the fields of SysInfo in tcpinfo_linux.go.
use conniver.Prelude.{ℕ, ◌≡◌, refl, none, some, List, [], ◌∷◌}
use conniver.Prelude.Fields.{
  Value, num, Entry, always, end, lookup, stored, lookup-put_fresh, entries_at, entries_at-mem,
}
use mathlib.Core.Path.{subst}
use mathlib.Core.List.{Memᴰ}
use conniver.TcpInfo.Common.{options_value}
use conniver.TcpInfo.Linux.SysInfo.{SysInfo}
use conniver.TcpInfo.Linux.ToMap.{when, to_map}
use conniver.TcpInfo.Linux.Entries.{all_entries, to_map-lookup}

-- The fields in the order of the struct, each under its JSON tag: a nullable field has a value where it
-- is valid. Left out are State, whose tag says so, and the three of `to_map-renamed`.
abbrev pub tagged : SysInfo → List Entry
tagged s =
    always "state" (Value.text s.state_name)
    ∷ always "caState" (num s.ca_state)
    ∷ always "retransmits" (num s.retransmits)
    ∷ always "probes" (num s.probes)
    ∷ always "backoff" (num s.backoff)
    ∷ always "txOptions" (options_value s.tx_options)
    ∷ always "rxOptions" (options_value s.rx_options)
    ∷ always "txWindowScale" (num s.tx_window_scale)
    ∷ always "rxWindowScale" (num s.rx_window_scale)
    ∷ when "deliveryRateAppLimited" Value.bool s.delivery_rate_app_limited
    ∷ when "fastOpenClientFail" num s.fast_open_client_fail
    ∷ always "rto" (num s.rto)
    ∷ always "ato" (num s.ato)
    ∷ always "txMSS" (num s.tx_mss)
    ∷ always "rxMSS" (num s.rx_mss)
    ∷ always "sacked" (num s.sacked)
    ∷ always "lost" (num s.lost)
    ∷ always "retrans" (num s.retrans)
    ∷ always "fackets" (num s.fackets)
    ∷ always "lastTxAt" (num s.last_tx_at)
    ∷ always "lastTxAckAt" (num s.last_tx_ack_at)
    ∷ always "lastRxAt" (num s.last_rx_at)
    ∷ always "lastRxAckAt" (num s.last_rx_ack_at)
    ∷ always "pmtu" (num s.pmtu)
    ∷ always "rxSSThreshold" (num s.rx_ss_threshold)
    ∷ always "rtt" (num s.rtt)
    ∷ always "rttVar" (num s.rtt_var)
    ∷ always "txSSThreshold" (num s.tx_ss_threshold)
    ∷ always "txCWindow" (num s.tx_c_window)
    ∷ always "advMSS" (num s.adv_mss)
    ∷ always "reordering" (num s.reordering)
    ∷ always "rxRTT" (num s.rx_rtt)
    ∷ always "rxSpace" (num s.rx_space)
    ∷ always "totalRetrans" (num s.total_retrans)
    ∷ when "pacingRate" num s.pacing_rate
    ∷ when "maxPacingRate" num s.max_pacing_rate
    ∷ when "bytesAcked" num s.bytes_acked
    ∷ when "bytesReceived" num s.bytes_received
    ∷ when "segsOut" num s.segs_out
    ∷ when "segsIn" num s.segs_in
    ∷ when "notSentBytes" num s.not_sent_bytes
    ∷ when "minRTT" num s.min_rtt
    ∷ when "dataSegsIn" num s.data_segs_in
    ∷ when "dataSegsOut" num s.data_segs_out
    ∷ when "deliveryRate" num s.delivery_rate
    ∷ when "busyTime" num s.busy_time
    ∷ when "delivered" num s.delivered
    ∷ when "deliveredCE" num s.delivered_ce
    ∷ when "bytesSent" num s.bytes_sent
    ∷ when "bytesRetrans" num s.bytes_retrans
    ∷ when "dsackDups" num s.dsack_dups
    ∷ when "reordSeen" num s.reord_seen
    ∷ when "rxOutOfOrder" num s.rx_out_of_order
    ∷ when "txWindow" num s.tx_window
    ∷ when "rxWindow" num s.rx_window
    ∷ when "rehash" num s.rehash
    ∷ when "totalRTO" num s.total_rto
    ∷ when "totalRTORecoveries" num s.total_rto_recoveries
    ∷ when "totalRTOTime" num s.total_rto_time
    ∷ always "ccAlgorithm" (Value.text s.cc_algorithm)
    ∷ when "ccVegasEnabled" num s.cc_vegas_enabled
    ∷ when "ccVegasRTTCnt" num s.cc_vegas_rtt_cnt
    ∷ when "ccVegasRTT" num s.cc_vegas_rtt
    ∷ when "ccVegasRTTMin" num s.cc_vegas_rtt_min
    ∷ when "ccBBRBwLo" num s.cc_bbr_bw_lo
    ∷ when "ccBBRBwHi" num s.cc_bbr_bw_hi
    ∷ when "ccBBRMinRTT" num s.cc_bbr_min_rtt
    ∷ when "ccBBRPacingGain" num s.cc_bbr_pacing_gain
    ∷ when "ccBBRCWindowGain" num s.cc_bbr_cwindow_gain
    ∷ when "ccDCTCPEnabled" Value.bool s.cc_dctcp_enabled
    ∷ when "ccDCTCPCEState" num s.cc_dctcp_ce_state
    ∷ when "ccDCTCPAlpha" num s.cc_dctcp_alpha
    ∷ when "ccDCTCPABECN" num s.cc_dctcp_ab_ecn
    ∷ when "ccDCTCPABTOT" num s.cc_dctcp_ab_tot
    ∷ []

-- Where the fields stand in the map.
positions : List ℕ
positions =
    0 ∷ 1 ∷ 2 ∷ 3 ∷ 4 ∷ 5 ∷ 6 ∷ 7 ∷ 8 ∷ 34 ∷ 35 ∷ 9 ∷ 10 ∷ 11 ∷ 12 ∷ 14 ∷ 15 ∷ 16 ∷ 17 ∷ 18 ∷ 19
    ∷ 20 ∷ 21 ∷ 22 ∷ 23 ∷ 24 ∷ 25 ∷ 26 ∷ 27 ∷ 28 ∷ 29 ∷ 30 ∷ 31 ∷ 32 ∷ 36 ∷ 37 ∷ 38 ∷ 39 ∷ 40 ∷ 41
    ∷ 42 ∷ 43 ∷ 44 ∷ 45 ∷ 46 ∷ 47 ∷ 50 ∷ 51 ∷ 52 ∷ 53 ∷ 54 ∷ 55 ∷ 56 ∷ 57 ∷ 58 ∷ 59 ∷ 60 ∷ 61 ∷ 62
    ∷ 33 ∷ 63 ∷ 64 ∷ 65 ∷ 66 ∷ 67 ∷ 68 ∷ 69 ∷ 70 ∷ 71 ∷ 72 ∷ 73 ∷ 74 ∷ 75 ∷ 76 ∷ []

tagged-positions : (s : SysInfo) → tagged s ≡ entries_at positions (all_entries s)
unfolding positions
tagged-positions s = refl

-- ToMap binds the JSON tag of each field of SysInfo, of all but three, to that field: a nullable field
-- exactly where it is valid.
pub to_map-tagged :
    (s : SysInfo) (e : Entry) → Memᴰ e (tagged s) → lookup e.key (to_map s) ≡ stored e none
to_map-tagged s e m =
    to_map-lookup s e
      (entries_at-mem positions e (all_entries s) (subst (Memᴰ e) (tagged-positions s) m))

-- Three fields are not found under their JSON tags, which are unacked, rwndLimited and sndbufLimited:
-- ToMap binds UnAcked to unAcked always, and RxWindowLimited to rxWindowLimited and TxBufferLimited to
-- txBufferLimited exactly where they are valid.
pub to_map-renamed :
    (s : SysInfo)
    → (lookup "unacked" (to_map s) ≡ none)
      × (lookup "rwndLimited" (to_map s) ≡ none)
      × (lookup "sndbufLimited" (to_map s) ≡ none)
      × (lookup "unAcked" (to_map s) ≡ some (num s.un_acked))
      × (lookup "rxWindowLimited" (to_map s)
          ≡ stored (when "rxWindowLimited" num s.rx_window_limited) none)
      × (lookup "txBufferLimited" (to_map s)
          ≡ stored (when "txBufferLimited" num s.tx_buffer_limited) none)
unfolding to_map lookup
to_map-renamed s = (
  lookup-put_fresh "unacked" (all_entries s) end refl,
  lookup-put_fresh "rwndLimited" (all_entries s) end refl,
  lookup-put_fresh "sndbufLimited" (all_entries s) end refl,
  to_map-lookup s (always "unAcked" (num s.un_acked))
      (entries_at-mem (13 ∷ []) _ (all_entries s) (Memᴰ.head refl)),
  to_map-lookup s (when "rxWindowLimited" num s.rx_window_limited)
      (entries_at-mem (48 ∷ []) _ (all_entries s) (Memᴰ.head refl)),
  to_map-lookup s (when "txBufferLimited" num s.tx_buffer_limited)
      (entries_at-mem (49 ∷ []) _ (all_entries s) (Memᴰ.head refl)),
)
