-- ===== src/TcpInfo/Linux/Constants.antt =====
-- The constants of pkg/tcpinfo/tcpinfo_linux.go: states, options and flags.
use conniver.Prelude.{ℕ}

abbrev pub tcp_established : ℕ
tcp_established = 1

abbrev pub tcp_syn_sent : ℕ
tcp_syn_sent = 2

abbrev pub tcp_syn_recv : ℕ
tcp_syn_recv = 3

abbrev pub tcp_fin_wait1 : ℕ
tcp_fin_wait1 = 4

abbrev pub tcp_fin_wait2 : ℕ
tcp_fin_wait2 = 5

abbrev pub tcp_time_wait : ℕ
tcp_time_wait = 6

abbrev pub tcp_close : ℕ
tcp_close = 7

abbrev pub tcp_close_wait : ℕ
tcp_close_wait = 8

abbrev pub tcp_last_ack : ℕ
tcp_last_ack = 9

abbrev pub tcp_listen : ℕ
tcp_listen = 10

abbrev pub tcp_closing : ℕ
tcp_closing = 11

abbrev pub tcp_new_syn_recv : ℕ
tcp_new_syn_recv = 12

abbrev pub tcpi_opt_timestamps : ℕ
tcpi_opt_timestamps = 1

abbrev pub tcpi_opt_sack : ℕ
tcpi_opt_sack = 2

abbrev pub tcpi_opt_wscale : ℕ
tcpi_opt_wscale = 4

abbrev pub tcpi_opt_ecn : ℕ
tcpi_opt_ecn = 8

abbrev pub tcpi_opt_ecn_seen : ℕ
tcpi_opt_ecn_seen = 16

abbrev pub tcpi_opt_syn_data : ℕ
tcpi_opt_syn_data = 32

abbrev pub tcpi_opt_usec_ts : ℕ
tcpi_opt_usec_ts = 64

abbrev pub tcpi_opt_tfo_child : ℕ
tcpi_opt_tfo_child = 128
