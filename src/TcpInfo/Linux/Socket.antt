-- ===== src/TcpInfo/Linux/Socket.antt =====
-- GetRawTCPInfo, GetTCPInfo and TCPInfoPlusCC.Unpack.
use conniver.Prelude.{
  ℕ, Bool, not, Option, none, some, Result, ok, err, List, [], ◌∷◌, ◌==◌, if◌then◌else◌,
}
use conniver.Prelude.Text.{Text, codes, ◌=ₜ◌}
use conniver.Prelude.Words.{microsecond, duration}
use conniver.TcpInfo.Nullables.{valid_of}
use conniver.TcpInfo.Linux.Raw.{RawTcpInfo}
use conniver.TcpInfo.Linux.SysInfo.{SysInfo}
use conniver.TcpInfo.Linux.Versions.{Flags, Adapted}
use conniver.TcpInfo.Linux.Unpack.{unpack}

-- ErrKernelTooOld, or an errno of a system call.
pub data Error : Type 0 where
  kernel_too_old : Error
  errno : ℕ → Error

-- unix.TCPVegasInfo, unix.TCPBBRInfo and unix.TCPDCTCPInfo
pub record VegasInfo : Type 0 where
  pub enabled : ℕ
  pub rttcnt : ℕ
  pub rtt : ℕ
  pub minrtt : ℕ

pub record BbrInfo : Type 0 where
  pub bw_lo : ℕ
  pub bw_hi : ℕ
  pub min_rtt : ℕ
  pub pacing_gain : ℕ
  pub cwnd_gain : ℕ

pub record DctcpInfo : Type 0 where
  pub enabled : ℕ
  pub ce_state : ℕ
  pub alpha : ℕ
  pub ab_ecn : ℕ
  pub ab_tot : ℕ

-- What the kernel answers for a socket: for TCP_INFO, by the length that is asked for, an errno (0 is
-- success) and the struct that it has filled in; for the congestion control options, an errno or a
-- value.
pub record Socket : Type 0 where
  pub tcp_info : ℕ → ℕ × RawTcpInfo
  pub congestion : Result ℕ Text
  pub vegas : Result ℕ VegasInfo
  pub bbr : Result ℕ BbrInfo
  pub dctcp : Result ℕ DctcpInfo

-- The named errnos EAGAIN, EINVAL and ENOENT are returned as the same values, so the switch of the
-- source returns the errno in all its cases.
unfoldable pub get_raw_tcp_info : Adapted → Socket → Result Error RawTcpInfo
get_raw_tcp_info g fd =
    let (e, value) = fd.tcp_info g.size_of_raw_tcp_info in
    if e == 0 then ok value else err (errno e)

-- The words of the argument block of socketcall: the handle, numbers, and pointers to the struct and to
-- its length.
pub data Word : Type 0 where
  handle : Socket → Word
  number : ℕ → Word
  to_value : Word
  to_length : ℕ → Word

abbrev pub net_get_sock_opt : ℕ
net_get_sock_opt = 15

-- The block that is passed on 386: SOL_TCP is 6 and TCP_INFO is 11.
abbrev pub socketcall_args : Adapted → Socket → List Word
socketcall_args g fd =
    handle fd ∷ number 6 ∷ number 11 ∷ to_value ∷ to_length g.size_of_raw_tcp_info ∷ []

-- GetRawTCPInfo on 386, where `socketcall` is that system call.
unfoldable pub get_raw_tcp_info_386 :
    (ℕ → List Word → ℕ × RawTcpInfo) → Adapted → Socket → Result Error RawTcpInfo
get_raw_tcp_info_386 socketcall g fd =
    let (e, value) = socketcall net_get_sock_opt (socketcall_args g fd) in
    if e == 0 then ok value else err (errno e)

unfoldable pub get_tcp_congestion_algorithm : Socket → Result Error Text
get_tcp_congestion_algorithm fd = elim fd.congestion [ err e ↦ err (errno e) | ok alg ↦ ok alg ]

pub record TcpInfoPlusCc : Type 0 where
  pub tcp_info : RawTcpInfo
  pub cc_alg : Text
  pub cc_vegas : Option VegasInfo
  pub cc_bbr : Option BbrInfo
  pub cc_dctcp : Option DctcpInfo

abbrev pub add_vegas : VegasInfo → SysInfo → SysInfo
add_vegas v s = record s {
  cc_vegas_enabled = valid_of v.enabled;
  cc_vegas_rtt_cnt = valid_of v.rttcnt;
  cc_vegas_rtt_min = valid_of (duration v.minrtt microsecond);
  cc_vegas_rtt = valid_of (duration v.rtt microsecond);
}

abbrev pub add_bbr : BbrInfo → SysInfo → SysInfo
add_bbr b s = record s {
  cc_bbr_bw_hi = valid_of b.bw_hi;
  cc_bbr_bw_lo = valid_of b.bw_lo;
  cc_bbr_min_rtt = valid_of (duration b.min_rtt microsecond);
  cc_bbr_pacing_gain = valid_of b.pacing_gain;
  cc_bbr_cwindow_gain = valid_of b.cwnd_gain;
}

abbrev pub add_dctcp : DctcpInfo → SysInfo → SysInfo
add_dctcp d s = record s {
  cc_dctcp_enabled = valid_of (not (d.enabled == 0));
  cc_dctcp_ce_state = valid_of d.ce_state;
  cc_dctcp_alpha = valid_of d.alpha;
  cc_dctcp_ab_ecn = valid_of d.ab_ecn;
  cc_dctcp_ab_tot = valid_of d.ab_tot;
}

-- `if t.CCAlg == name && p != nil { … }` for a pointer `p`
abbrev pub with_cc {ℓ} :
    {A : Type ℓ} → Bool → Option A → (A → SysInfo → SysInfo) → SysInfo → SysInfo → SysInfo
with_cc named none add s other = other
with_cc named (some a) add s other = if named then add a s else other

unfoldable pub unpack_cc : Flags → TcpInfoPlusCc → SysInfo
unpack_cc flags t =
    let s : SysInfo = record (unpack flags t.tcp_info) { cc_algorithm = t.cc_alg } in
    with_cc (t.cc_alg =ₜ codes "vegas") t.cc_vegas add_vegas s (
      with_cc (t.cc_alg =ₜ codes "bbr") t.cc_bbr add_bbr s
        (with_cc (t.cc_alg =ₜ codes "dctcp") t.cc_dctcp add_dctcp s s))

abbrev pub bare : RawTcpInfo → Text → TcpInfoPlusCc
bare raw alg = record {
  tcp_info = raw;
  cc_alg = alg;
  cc_vegas = none;
  cc_bbr = none;
  cc_dctcp = none;
}

-- The pair that GetTCPInfo returns.
abbrev pub Answer : Type 0
Answer = Option SysInfo × Option Error

-- One case of the switch over the algorithm.
abbrev pub with_reply {ℓ} :
    {A : Type ℓ} → Flags → TcpInfoPlusCc → Result ℕ A → (A → TcpInfoPlusCc) → Answer
with_reply flags res (err e) fill = (some (unpack_cc flags res), some (errno e))
with_reply flags res (ok a) fill = (some (unpack_cc flags (fill a)), none)

unfoldable pub get_cc_info : Flags → Socket → RawTcpInfo → Text → Answer
get_cc_info flags fd raw alg =
    let res = bare raw alg in
    if alg =ₜ codes "vegas"
    then with_reply flags res fd.vegas (λ v. record res { cc_vegas = some v })
    else if alg =ₜ codes "bbr"
    then with_reply flags res fd.bbr (λ v. record res { cc_bbr = some v })
    else if alg =ₜ codes "dctcp"
    then with_reply flags res fd.dctcp (λ v. record res { cc_dctcp = some v })
    else (some (unpack_cc flags res), none)

unfoldable pub get_with_raw : Flags → Socket → RawTcpInfo → Answer
get_with_raw flags fd raw = elim (get_tcp_congestion_algorithm fd) [
  | err e ↦ (some (unpack_cc flags (bare raw [])), some e)
  | ok alg ↦ get_cc_info flags fd raw alg
]

unfoldable pub get_tcp_info : Adapted → Socket → Answer
get_tcp_info g fd =
    let answer : Answer = elim (get_raw_tcp_info g fd) [
      | err e ↦ (none, some e)
      | ok raw ↦ get_with_raw g.flags fd raw
    ] in
    if g.flags.v2_6_2 then answer else (none, some kernel_too_old)

unfoldable pub supported : Adapted → Bool
supported g = g.flags.v2_6_2
