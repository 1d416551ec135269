-- ===== src/TcpInfo/Linux/SysInfo.antt =====
-- SysInfo, the unpacked form of RawTCPInfo, and its Clone.
use conniver.Prelude.{ℕ, Bool, Option, none, some}
use conniver.Prelude.Text.{Text}
use conniver.TcpInfo.Common.{Slice, clone_options}
use conniver.TcpInfo.Nullables.{Nullable}

pub record SysInfo : Type 0 where
  pub state : ℕ
  pub state_name : Text
  pub ca_state : ℕ
  pub retransmits : ℕ
  pub probes : ℕ
  pub backoff : ℕ
  pub tx_options : Slice
  pub rx_options : Slice
  pub tx_window_scale : ℕ
  pub rx_window_scale : ℕ
  pub delivery_rate_app_limited : Nullable Bool
  pub fast_open_client_fail : Nullable ℕ
  pub rto : ℕ
  pub ato : ℕ
  pub tx_mss : ℕ
  pub rx_mss : ℕ
  pub un_acked : ℕ
  pub sacked : ℕ
  pub lost : ℕ
  pub retrans : ℕ
  pub fackets : ℕ
  pub last_tx_at : ℕ
  pub last_tx_ack_at : ℕ
  pub last_rx_at : ℕ
  pub last_rx_ack_at : ℕ
  pub pmtu : ℕ
  pub rx_ss_threshold : ℕ
  pub rtt : ℕ
  pub rtt_var : ℕ
  pub tx_ss_threshold : ℕ
  pub tx_c_window : ℕ
  pub adv_mss : ℕ
  pub reordering : ℕ
  pub rx_rtt : ℕ
  pub rx_space : ℕ
  pub total_retrans : ℕ
  pub pacing_rate : Nullable ℕ
  pub max_pacing_rate : Nullable ℕ
  pub bytes_acked : Nullable ℕ
  pub bytes_received : Nullable ℕ
  pub segs_out : Nullable ℕ
  pub segs_in : Nullable ℕ
  pub not_sent_bytes : Nullable ℕ
  pub min_rtt : Nullable ℕ
  pub data_segs_in : Nullable ℕ
  pub data_segs_out : Nullable ℕ
  pub delivery_rate : Nullable ℕ
  pub busy_time : Nullable ℕ
  pub rx_window_limited : Nullable ℕ
  pub tx_buffer_limited : Nullable ℕ
  pub delivered : Nullable ℕ
  pub delivered_ce : Nullable ℕ
  pub bytes_sent : Nullable ℕ
  pub bytes_retrans : Nullable ℕ
  pub dsack_dups : Nullable ℕ
  pub reord_seen : Nullable ℕ
  pub rx_out_of_order : Nullable ℕ
  pub tx_window : Nullable ℕ
  pub rx_window : Nullable ℕ
  pub rehash : Nullable ℕ
  pub total_rto : Nullable ℕ
  pub total_rto_recoveries : Nullable ℕ
  pub total_rto_time : Nullable ℕ
  pub cc_algorithm : Text
  pub cc_vegas_enabled : Nullable ℕ
  pub cc_vegas_rtt_cnt : Nullable ℕ
  pub cc_vegas_rtt : Nullable ℕ
  pub cc_vegas_rtt_min : Nullable ℕ
  pub cc_bbr_bw_lo : Nullable ℕ
  pub cc_bbr_bw_hi : Nullable ℕ
  pub cc_bbr_min_rtt : Nullable ℕ
  pub cc_bbr_pacing_gain : Nullable ℕ
  pub cc_bbr_cwindow_gain : Nullable ℕ
  pub cc_dctcp_enabled : Nullable Bool
  pub cc_dctcp_ce_state : Nullable ℕ
  pub cc_dctcp_alpha : Nullable ℕ
  pub cc_dctcp_ab_ecn : Nullable ℕ
  pub cc_dctcp_ab_tot : Nullable ℕ

-- Clone of a pointer to SysInfo.
unfoldable pub clone : Option SysInfo → Option SysInfo
clone none = none
clone (some s) =
    some (record s {
      tx_options = clone_options s.tx_options;
      rx_options = clone_options s.rx_options;
    })
