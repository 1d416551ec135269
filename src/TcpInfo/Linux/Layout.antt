-- ===== src/TcpInfo/Linux/Layout.antt =====
-- What getsockopt(2) copies out of the kernel's tcp_info into a zeroed struct.
use conniver.Prelude.{ℕ, leb, if◌then◌else◌}
use conniver.TcpInfo.Linux.Raw.{RawTcpInfo}

-- A field that ends within the first `len` bytes is copied. (No length that the library asks for ends
-- inside a field.)
abbrev keep : ℕ → ℕ → ℕ → ℕ
keep len last v = if leb last len then v else 0

-- The ends of the fields are those of the comments in the source.
unfoldable pub first_bytes : ℕ → RawTcpInfo → RawTcpInfo
first_bytes len r = record {
  state = keep len 1 r.state;
  ca_state = keep len 2 r.ca_state;
  retransmits = keep len 3 r.retransmits;
  probes = keep len 4 r.probes;
  backoff = keep len 5 r.backoff;
  options = keep len 6 r.options;
  bitfield0 = keep len 7 r.bitfield0;
  bitfield1 = keep len 8 r.bitfield1;
  rto = keep len 12 r.rto;
  ato = keep len 16 r.ato;
  snd_mss = keep len 20 r.snd_mss;
  rcv_mss = keep len 24 r.rcv_mss;
  unacked = keep len 28 r.unacked;
  sacked = keep len 32 r.sacked;
  lost = keep len 36 r.lost;
  retrans = keep len 40 r.retrans;
  fackets = keep len 44 r.fackets;
  last_data_sent = keep len 48 r.last_data_sent;
  last_ack_sent = keep len 52 r.last_ack_sent;
  last_data_recv = keep len 56 r.last_data_recv;
  last_ack_recv = keep len 60 r.last_ack_recv;
  pmtu = keep len 64 r.pmtu;
  rcv_ssthresh = keep len 68 r.rcv_ssthresh;
  rtt = keep len 72 r.rtt;
  rttvar = keep len 76 r.rttvar;
  snd_ssthresh = keep len 80 r.snd_ssthresh;
  snd_cwnd = keep len 84 r.snd_cwnd;
  advmss = keep len 88 r.advmss;
  reordering = keep len 92 r.reordering;
  rcv_rtt = keep len 96 r.rcv_rtt;
  rcv_space = keep len 100 r.rcv_space;
  total_retrans = keep len 104 r.total_retrans;
  pacing_rate = keep len 112 r.pacing_rate;
  max_pacing_rate = keep len 120 r.max_pacing_rate;
  bytes_acked = keep len 128 r.bytes_acked;
  bytes_received = keep len 136 r.bytes_received;
  segs_out = keep len 140 r.segs_out;
  segs_in = keep len 144 r.segs_in;
  notsent_bytes = keep len 148 r.notsent_bytes;
  min_rtt = keep len 152 r.min_rtt;
  data_segs_in = keep len 156 r.data_segs_in;
  data_segs_out = keep len 160 r.data_segs_out;
  delivery_rate = keep len 168 r.delivery_rate;
  busy_time = keep len 176 r.busy_time;
  rwnd_limited = keep len 184 r.rwnd_limited;
  sndbuf_limited = keep len 192 r.sndbuf_limited;
  delivered = keep len 196 r.delivered;
  delivered_ce = keep len 200 r.delivered_ce;
  bytes_sent = keep len 208 r.bytes_sent;
  bytes_retrans = keep len 216 r.bytes_retrans;
  dsack_dups = keep len 220 r.dsack_dups;
  reord_seen = keep len 224 r.reord_seen;
  rcv_ooopack = keep len 228 r.rcv_ooopack;
  snd_wnd = keep len 232 r.snd_wnd;
  rcv_wnd = keep len 236 r.rcv_wnd;
  rehash = keep len 240 r.rehash;
  total_rto = keep len 242 r.total_rto;
  total_rto_recoveries = keep len 244 r.total_rto_recoveries;
  total_rto_time = keep len 248 r.total_rto_time;
}
