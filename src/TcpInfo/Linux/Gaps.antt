-- ===== src/TcpInfo/Linux/Gaps.antt =====
-- The two ranges of kernels for which the length that is asked for is too short.
use conniver.Prelude.{◌≡◌, refl, true, arith}
use conniver.Prelude.Words.{duration}
use conniver.Kernel.{VersionInfo}
use conniver.TcpInfo.Nullables.{valid_of}
use conniver.TcpInfo.Linux.Raw.{RawTcpInfo}
use conniver.TcpInfo.Linux.Layout.{first_bytes}
use conniver.TcpInfo.Linux.SysInfo.{SysInfo}
use conniver.TcpInfo.Linux.Versions.{numbered, Adapted, tcp_info_sizes, adapt_loop}
use conniver.TcpInfo.Linux.Unpack.{unpack}
use conniver.TcpInfo.Linux.Adapt.{chain}
use conniver.TcpInfo.Linux.Steps
use conniver.TcpInfo.Linux.Coverage.{between}

-- What is reported for a struct that the kernel has filled.
abbrev pub reported : Adapted → RawTcpInfo → SysInfo
reported g r = unpack g.flags (first_bytes g.size_of_raw_tcp_info r)

-- On kernels from 4.9 and older than 4.10, the minimal RTT, the two counts of data
-- segments and the delivery rate are reported as valid zeros, whatever the kernel holds in them.
pub delivery_rate-lost :
    (v : VersionInfo) (s : Adapted) (r : RawTcpInfo)
    → between v (numbered 4 9 0) (numbered 4 10 0) ≡ true
    → ((reported (adapt_loop v tcp_info_sizes s) r).min_rtt ≡ valid_of 0)
      × ((reported (adapt_loop v tcp_info_sizes s) r).data_segs_in ≡ valid_of 0)
      × ((reported (adapt_loop v tcp_info_sizes s) r).data_segs_out ≡ valid_of 0)
      × ((reported (adapt_loop v tcp_info_sizes s) r).delivery_rate ≡ valid_of 0)
unfolding unpack first_bytes duration
delivery_rate-lost v s r h =
    rw (Steps.v4_9-adapted v s (chain v) (ground arith) (ground arith)) (refl, refl, refl, refl)

-- On kernels from 6.2 and older than 6.7, the three counters of retransmission timeouts, which 6.7
-- introduced, are reported as valid zeros.
pub total_rto-reported :
    (v : VersionInfo) (s : Adapted) (r : RawTcpInfo)
    → between v (numbered 6 2 0) (numbered 6 7 0) ≡ true
    → ((reported (adapt_loop v tcp_info_sizes s) r).total_rto ≡ valid_of 0)
      × ((reported (adapt_loop v tcp_info_sizes s) r).total_rto_recoveries ≡ valid_of 0)
      × ((reported (adapt_loop v tcp_info_sizes s) r).total_rto_time ≡ valid_of 0)
unfolding unpack first_bytes
total_rto-reported v s r h =
    rw (Steps.v6_2-adapted v s (chain v) (ground arith) (ground arith)) (refl, refl, refl)
