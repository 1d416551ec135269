-- ===== src/TcpInfo/Linux/Raw.antt =====
-- RawTCPInfo, the kernel's tcp_info, field by field.
use conniver.Prelude.{ℕ}

pub record RawTcpInfo : Type 0 where
  pub state : ℕ
  pub ca_state : ℕ
  pub retransmits : ℕ
  pub probes : ℕ
  pub backoff : ℕ
  pub options : ℕ
  pub bitfield0 : ℕ
  pub bitfield1 : ℕ
  pub rto : ℕ
  pub ato : ℕ
  pub snd_mss : ℕ
  pub rcv_mss : ℕ
  pub unacked : ℕ
  pub sacked : ℕ
  pub lost : ℕ
  pub retrans : ℕ
  pub fackets : ℕ
  pub last_data_sent : ℕ
  pub last_ack_sent : ℕ
  pub last_data_recv : ℕ
  pub last_ack_recv : ℕ
  pub pmtu : ℕ
  pub rcv_ssthresh : ℕ
  pub rtt : ℕ
  pub rttvar : ℕ
  pub snd_ssthresh : ℕ
  pub snd_cwnd : ℕ
  pub advmss : ℕ
  pub reordering : ℕ
  pub rcv_rtt : ℕ
  pub rcv_space : ℕ
  pub total_retrans : ℕ
  pub pacing_rate : ℕ
  pub max_pacing_rate : ℕ
  pub bytes_acked : ℕ
  pub bytes_received : ℕ
  pub segs_out : ℕ
  pub segs_in : ℕ
  pub notsent_bytes : ℕ
  pub min_rtt : ℕ
  pub data_segs_in : ℕ
  pub data_segs_out : ℕ
  pub delivery_rate : ℕ
  pub busy_time : ℕ
  pub rwnd_limited : ℕ
  pub sndbuf_limited : ℕ
  pub delivered : ℕ
  pub delivered_ce : ℕ
  pub bytes_sent : ℕ
  pub bytes_retrans : ℕ
  pub dsack_dups : ℕ
  pub reord_seen : ℕ
  pub rcv_ooopack : ℕ
  pub snd_wnd : ℕ
  pub rcv_wnd : ℕ
  pub rehash : ℕ
  pub total_rto : ℕ
  pub total_rto_recoveries : ℕ
  pub total_rto_time : ℕ
