-- ===== src/TcpInfo/Darwin/Constants.antt =====
-- The constants of pkg/tcpinfo/tcpinfo_darwin.go: states, options and flags.
use conniver.Prelude.{ℕ}

abbrev pub tcps_closed : ℕ
tcps_closed = 0

abbrev pub tcps_listen : ℕ
tcps_listen = 1

abbrev pub tcps_syn_sent : ℕ
tcps_syn_sent = 2

abbrev pub tcps_syn_received : ℕ
tcps_syn_received = 3

abbrev pub tcps_established : ℕ
tcps_established = 4

abbrev pub tcps_close_wait : ℕ
tcps_close_wait = 5

abbrev pub tcps_fin_wait_1 : ℕ
tcps_fin_wait_1 = 6

abbrev pub tcps_closing : ℕ
tcps_closing = 7

abbrev pub tcps_last_ack : ℕ
tcps_last_ack = 8

abbrev pub tcps_fin_wait_2 : ℕ
tcps_fin_wait_2 = 9

abbrev pub tcps_time_wait : ℕ
tcps_time_wait = 10

abbrev pub tcpci_opt_timestamps : ℕ
tcpci_opt_timestamps = 1

abbrev pub tcpci_opt_sack : ℕ
tcpci_opt_sack = 2

abbrev pub tcpci_opt_wscale : ℕ
tcpci_opt_wscale = 4

abbrev pub tcpci_opt_ecn : ℕ
tcpci_opt_ecn = 8

abbrev pub sys_flag_loss_recovery : ℕ
sys_flag_loss_recovery = 1

abbrev pub sys_flag_reordering_detected : ℕ
sys_flag_reordering_detected = 2
