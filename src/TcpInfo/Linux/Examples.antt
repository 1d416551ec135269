-- ===== src/TcpInfo/Linux/Examples.antt =====
-- A socket on three kernels, and the theorems about Linux applied to it.
use conniver.Prelude.{
  ℕ, none, Result, ◌∷◌, ◌++◌, [], ◌+◌, ◌*◌, ◌≡◌, refl, pos, true, false, ◌&&◌, ◌||◌, some, is_some,
  ok, err, ◌==◌, arith,
}
use mathlib.Core.List.{Memᴰ}
use conniver.Prelude.Text.{Text, codes}
use conniver.Prelude.Fields.{num, Entry, always, lookup, stored}
use conniver.Kernel.{VersionInfo, compare_kernel_version}
use conniver.Kernel.Order.{at_least}
use conniver.TcpInfo.Nullables.{valid_of}
use conniver.TcpInfo.Linux.Raw.{RawTcpInfo}
use conniver.TcpInfo.Linux.SysInfo.{SysInfo}
use conniver.TcpInfo.Linux.Versions.{
  at_v4_10, get, Adapted, initial, numbered, tcp_info_sizes, detect, adapt_loop,
  adapt_to_kernel_version,
}
use conniver.TcpInfo.Linux.Unpack.{unpack}
use conniver.TcpInfo.Linux.ToMap.{when, to_map}
use conniver.TcpInfo.Linux.Socket.{
  Socket, VegasInfo, bare, unpack_cc, get_cc_info, get_with_raw, get_tcp_info, supported,
}
use conniver.Wrap.OnLinux.{Net, started, is_recent, wrapped, wrapped-started}
use conniver.Kernel.Check.{Utsname, uname}
use conniver.TcpInfo.Linux.Layout.{first_bytes}
use conniver.TcpInfo.Linux.Adapt.{version_of, adapt_to_kernel_version-flag}
use conniver.TcpInfo.Linux.Coverage.{between, IsCovered, unpack-IsCovered}
use conniver.TcpInfo.Linux.Gaps.{reported, delivery_rate-lost, total_rto-reported}
use conniver.TcpInfo.Linux.Options.{options_of, unpack-options}
use conniver.TcpInfo.Named.{elements}
use conniver.TcpInfo.Linux.Tags.{tagged, to_map-tagged, to_map-renamed}
use conniver.TcpInfo.Linux.Calls.{
  get_tcp_info-answers, get_tcp_info-covered, vegas_valid, bbr_valid, dctcp_valid,
  get_cc_info-valid,
}

abbrev raw : RawTcpInfo
raw = record {
  state = 1;
  ca_state = 1001;
  retransmits = 1002;
  probes = 1003;
  backoff = 1004;
  options = 7;
  bitfield0 = 151;
  bitfield1 = 1;
  rto = 1008;
  ato = 1009;
  snd_mss = 1010;
  rcv_mss = 1011;
  unacked = 1012;
  sacked = 1013;
  lost = 1014;
  retrans = 1015;
  fackets = 1016;
  last_data_sent = 1017;
  last_ack_sent = 1018;
  last_data_recv = 1019;
  last_ack_recv = 1020;
  pmtu = 1021;
  rcv_ssthresh = 1022;
  rtt = 1023;
  rttvar = 1024;
  snd_ssthresh = 1025;
  snd_cwnd = 1026;
  advmss = 1027;
  reordering = 1028;
  rcv_rtt = 1029;
  rcv_space = 1030;
  total_retrans = 1031;
  pacing_rate = 1032;
  max_pacing_rate = 1033;
  bytes_acked = 1034;
  bytes_received = 1035;
  segs_out = 1036;
  segs_in = 1037;
  notsent_bytes = 1038;
  min_rtt = 1039;
  data_segs_in = 1040;
  data_segs_out = 1041;
  delivery_rate = 1042;
  busy_time = 1043;
  rwnd_limited = 1044;
  sndbuf_limited = 1045;
  delivered = 1046;
  delivered_ce = 1047;
  bytes_sent = 1048;
  bytes_retrans = 1049;
  dsack_dups = 1050;
  reord_seen = 1051;
  rcv_ooopack = 1052;
  snd_wnd = 1053;
  rcv_wnd = 1054;
  rehash = 1055;
  total_rto = 1056;
  total_rto_recoveries = 1057;
  total_rto_time = 1058;
}

abbrev on_kernel : VersionInfo → Adapted
on_kernel v = adapt_loop v tcp_info_sizes initial

abbrev v5_10 : VersionInfo
v5_10 = record { kernel = pos 5; major = pos 10; minor = pos 3; flavor = codes "-generic" }

abbrev vegas_info : VegasInfo
vegas_info = record { enabled = 1; rttcnt = 3; rtt = 20; minrtt = 10 }

abbrev fd : Socket
fd = record {
  tcp_info = λ len. (0, first_bytes len raw);
  congestion = ok (codes "vegas");
  vegas = ok vegas_info;
  bbr = err 22;
  dctcp = err 22;
}

supported_v5_10 : at_least v5_10 (numbered 2 6 2) ≡ true
unfolding compare_kernel_version
supported_v5_10 = refl

outside_v4_9 : between v5_10 (numbered 4 9 0) (numbered 4 10 0) ≡ false
unfolding compare_kernel_version
outside_v4_9 = refl

outside_v6_2 : between v5_10 (numbered 6 2 0) (numbered 6 7 0) ≡ false
unfolding compare_kernel_version
outside_v6_2 = refl

unpack-IsCovered_example : IsCovered (on_kernel v5_10) raw
unpack-IsCovered_example =
    unpack-IsCovered v5_10 initial raw supported_v5_10 outside_v4_9 outside_v6_2

adapt_to_kernel_version-flag_example :
    get at_v4_10 (adapt_to_kernel_version (ok v5_10) initial).flags
    ≡ at_least (detect (ok v5_10) initial.linux_kernel_version) (version_of at_v4_10)
adapt_to_kernel_version-flag_example = adapt_to_kernel_version-flag (ok v5_10) initial at_v4_10

get_tcp_info-covered_example :
    get_tcp_info (on_kernel v5_10) fd ≡ get_with_raw (on_kernel v5_10).flags fd raw
get_tcp_info-covered_example =
    get_tcp_info-covered v5_10 initial fd raw (λ len. refl) supported_v5_10 outside_v4_9
      outside_v6_2

get_tcp_info-answers_example :
    (is_some (get_tcp_info (on_kernel v5_10) fd).0 ≡ (
      supported (on_kernel v5_10) && ((fd.tcp_info (on_kernel v5_10).size_of_raw_tcp_info).0 == 0)))
    × ((is_some (get_tcp_info (on_kernel v5_10) fd).0
          || is_some (get_tcp_info (on_kernel v5_10) fd).1)
        ≡ true)
get_tcp_info-answers_example = get_tcp_info-answers (on_kernel v5_10) fd

abbrev with_vegas : SysInfo
with_vegas =
    unpack_cc (on_kernel v5_10).flags
      (record (bare raw (codes "vegas")) { cc_vegas = some vegas_info })

vegas_answer : (get_cc_info (on_kernel v5_10).flags fd raw (codes "vegas")).0 ≡ some with_vegas
unfolding get_cc_info
vegas_answer = refl

get_cc_info-valid_example :
    (with_vegas.cc_algorithm ≡ codes "vegas")
    × (vegas_valid with_vegas ≡ true ∷ true ∷ true ∷ true ∷ [])
    × (bbr_valid with_vegas ≡ false ∷ false ∷ false ∷ false ∷ false ∷ [])
    × (dctcp_valid with_vegas ≡ false ∷ false ∷ false ∷ false ∷ false ∷ [])
get_cc_info-valid_example =
    get_cc_info-valid (on_kernel v5_10).flags fd raw (codes "vegas") with_vegas vegas_answer

inside_v4_9 : between (numbered 4 9 200) (numbered 4 9 0) (numbered 4 10 0) ≡ true
unfolding compare_kernel_version
inside_v4_9 = refl

delivery_rate-lost_example :
    ((reported (on_kernel (numbered 4 9 200)) raw).min_rtt ≡ valid_of 0)
    × ((reported (on_kernel (numbered 4 9 200)) raw).data_segs_in ≡ valid_of 0)
    × ((reported (on_kernel (numbered 4 9 200)) raw).data_segs_out ≡ valid_of 0)
    × ((reported (on_kernel (numbered 4 9 200)) raw).delivery_rate ≡ valid_of 0)
delivery_rate-lost_example = delivery_rate-lost (numbered 4 9 200) initial raw inside_v4_9

inside_v6_2 : between (numbered 6 5 0) (numbered 6 2 0) (numbered 6 7 0) ≡ true
unfolding compare_kernel_version
inside_v6_2 = refl

total_rto-reported_example :
    ((reported (on_kernel (numbered 6 5 0)) raw).total_rto ≡ valid_of 0)
    × ((reported (on_kernel (numbered 6 5 0)) raw).total_rto_recoveries ≡ valid_of 0)
    × ((reported (on_kernel (numbered 6 5 0)) raw).total_rto_time ≡ valid_of 0)
total_rto-reported_example = total_rto-reported (numbered 6 5 0) initial raw inside_v6_2

unpack-options_example :
    (elements (unpack (on_kernel v5_10).flags raw).tx_options ≡ options_of 7 7)
    × (elements (unpack (on_kernel v5_10).flags raw).rx_options ≡ options_of 7 9)
    × ((unpack (on_kernel v5_10).flags raw).tx_window_scale
          + 16 * (unpack (on_kernel v5_10).flags raw).rx_window_scale
        ≡ 0x97)
unfolding unpack
unpack-options_example = unpack-options (on_kernel v5_10).flags raw (omega arith) (omega arith)

-- Timestamps and SACK, and the window scale with its value.
three_options :
    options_of 7 9
    ≡ record { kind = codes "Timestamps"; value = 0 }
      ∷ record { kind = codes "SACK"; value = 0 }
      ∷ record { kind = codes "WindowScale"; value = 9 }
      ∷ []
three_options = refl

abbrev info : SysInfo
info = unpack (on_kernel v5_10).flags raw

abbrev ca_entry : Entry
ca_entry = always "caState" (num info.ca_state)

ca_tagged : Memᴰ ca_entry (tagged info)
ca_tagged = Memᴰ.tail (Memᴰ.head refl)

to_map-tagged_example : lookup "caState" (to_map info) ≡ some (num info.ca_state)
to_map-tagged_example = to_map-tagged info ca_entry ca_tagged

to_map-renamed_example :
    (lookup "unacked" (to_map info) ≡ none)
    × (lookup "rwndLimited" (to_map info) ≡ none)
    × (lookup "sndbufLimited" (to_map info) ≡ none)
    × (lookup "unAcked" (to_map info) ≡ some (num info.un_acked))
    × (lookup "rxWindowLimited" (to_map info)
        ≡ stored (when "rxWindowLimited" num info.rx_window_limited) none)
    × (lookup "txBufferLimited" (to_map info)
        ≡ stored (when "txBufferLimited" num info.tx_buffer_limited) none)
to_map-renamed_example = to_map-renamed info

abbrev some_net : Net
some_net = record {
  Ctx = ℕ;
  Sock = ℕ;
  Addr = ℕ;
  Err = ℕ;
  err_closed = 0;
  tcp_info_err = λ e. 1;
  timeout = λ e. none;
  error_text = λ e. [];
  addr_text = λ a. [];
  local_addr_of = λ s. none;
  remote_addr_of = λ s. none;
  is_tcp = λ s. true;
}

abbrev answered : Result Text Utsname
answered = uname none (record { release = codes "5.10.0" ++ 0 ∷ [] })

wrapped-started_example :
    (is_some (wrapped some_net (started answered) fd 0 7 true [] 100).opened_info
      ≡ (is_recent answered && ((fd.tcp_info (started answered).size_of_raw_tcp_info).0 == 0)))
    × ((is_some (wrapped some_net (started answered) fd 0 7 true [] 100).opened_info
          || is_some (wrapped some_net (started answered) fd 0 7 true [] 100).info_err)
        ≡ is_recent answered)
wrapped-started_example = wrapped-started some_net answered fd 0 7 true [] 100 refl

-- Where uname fails, the kernel is taken to be 2.6.2.
recorded_without_release :
    is_some (wrapped some_net (started (err [])) fd 0 7 true [] 100).opened_info ≡ true
unfolding conniver.Kernel.Check.get_kernel_version adapt_to_kernel_version compare_kernel_version
recorded_without_release = (wrapped-started some_net (err []) fd 0 7 true [] 100 refl).0
