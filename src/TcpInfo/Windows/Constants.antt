-- ===== src/TcpInfo/Windows/Constants.antt =====
-- The constants of pkg/tcpinfo/tcpinfo_windows.go: states, options and flags.
use conniver.Prelude.{ℕ}

abbrev pub tcps_closed : ℕ
tcps_closed = 0

abbrev pub tcps_listen : ℕ
tcps_listen = 1

abbrev pub tcps_syn_sent : ℕ
tcps_syn_sent = 2

abbrev pub tcps_syn_received : ℕ
tcps_syn_received = 3

abbrev pub tcps_established : ℕ
tcps_established = 4

abbrev pub tcps_fin_wait_1 : ℕ
tcps_fin_wait_1 = 5

abbrev pub tcps_fin_wait_2 : ℕ
tcps_fin_wait_2 = 6

abbrev pub tcps_close_wait : ℕ
tcps_close_wait = 7

abbrev pub tcps_closing : ℕ
tcps_closing = 8

abbrev pub tcps_last_ack : ℕ
tcps_last_ack = 9

abbrev pub tcps_time_wait : ℕ
tcps_time_wait = 10
