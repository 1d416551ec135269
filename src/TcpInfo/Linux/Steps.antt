-- ===== src/TcpInfo/Linux/Steps.antt =====
-- What the version steps come to: the length and the flags for the newest entry that the kernel has.
mod FlagSets
pub use FlagSets.*
use conniver.Prelude.{ℕ, ◌≡◌, true, false, Option, arith}
use conniver.Kernel.{VersionInfo}
use conniver.Kernel.Order.{at_least}
use conniver.TcpInfo.Linux.Versions.{Flags, numbered, Adapted, tcp_info_sizes, adapt_loop}
use conniver.TcpInfo.Linux.Adapt.{Chain}

abbrev pub settled : Option VersionInfo → ℕ → Flags → Adapted
settled k size flags = record {
  linux_kernel_version = k;
  size_of_raw_tcp_info = size;
  flags = flags;
}

module _ (v : VersionInfo) (s : Adapted) (c : Chain v) where
  pub v2_6_2-adapted :
      at_least v (numbered 2 6 2) ≡ true
      → at_least v (numbered 3 15 0) ≡ false
      → adapt_loop v tcp_info_sizes s ≡ settled s.linux_kernel_version 104 v2_6_2_flags
  unfolding adapt_loop
  v2_6_2-adapted h k = ground arith

  pub v3_15-adapted :
      at_least v (numbered 3 15 0) ≡ true
      → at_least v (numbered 4 1 0) ≡ false
      → adapt_loop v tcp_info_sizes s ≡ settled s.linux_kernel_version 120 v3_15_flags
  unfolding adapt_loop
  v3_15-adapted h k = ground arith

  pub v4_1-adapted :
      at_least v (numbered 4 1 0) ≡ true
      → at_least v (numbered 4 2 0) ≡ false
      → adapt_loop v tcp_info_sizes s ≡ settled s.linux_kernel_version 136 v4_1_flags
  unfolding adapt_loop
  v4_1-adapted h k = ground arith

  pub v4_2-adapted :
      at_least v (numbered 4 2 0) ≡ true
      → at_least v (numbered 4 6 0) ≡ false
      → adapt_loop v tcp_info_sizes s ≡ settled s.linux_kernel_version 144 v4_2_flags
  unfolding adapt_loop
  v4_2-adapted h k = ground arith

  pub v4_6-adapted :
      at_least v (numbered 4 6 0) ≡ true
      → at_least v (numbered 4 9 0) ≡ false
      → adapt_loop v tcp_info_sizes s ≡ settled s.linux_kernel_version 160 v4_6_flags
  unfolding adapt_loop
  v4_6-adapted h k = ground arith

  pub v4_9-adapted :
      at_least v (numbered 4 9 0) ≡ true
      → at_least v (numbered 4 10 0) ≡ false
      → adapt_loop v tcp_info_sizes s ≡ settled s.linux_kernel_version 148 v4_9_flags
  unfolding adapt_loop
  v4_9-adapted h k = ground arith

  pub v4_10-adapted :
      at_least v (numbered 4 10 0) ≡ true
      → at_least v (numbered 4 18 0) ≡ false
      → adapt_loop v tcp_info_sizes s ≡ settled s.linux_kernel_version 192 v4_10_flags
  unfolding adapt_loop
  v4_10-adapted h k = ground arith

  pub v4_18-adapted :
      at_least v (numbered 4 18 0) ≡ true
      → at_least v (numbered 4 19 0) ≡ false
      → adapt_loop v tcp_info_sizes s ≡ settled s.linux_kernel_version 200 v4_18_flags
  unfolding adapt_loop
  v4_18-adapted h k = ground arith

  pub v4_19-adapted :
      at_least v (numbered 4 19 0) ≡ true
      → at_least v (numbered 5 4 0) ≡ false
      → adapt_loop v tcp_info_sizes s ≡ settled s.linux_kernel_version 224 v4_19_flags
  unfolding adapt_loop
  v4_19-adapted h k = ground arith

  pub v5_4-adapted :
      at_least v (numbered 5 4 0) ≡ true
      → at_least v (numbered 5 5 0) ≡ false
      → adapt_loop v tcp_info_sizes s ≡ settled s.linux_kernel_version 232 v5_4_flags
  unfolding adapt_loop
  v5_4-adapted h k = ground arith

  pub v5_5-adapted :
      at_least v (numbered 5 5 0) ≡ true
      → at_least v (numbered 6 2 0) ≡ false
      → adapt_loop v tcp_info_sizes s ≡ settled s.linux_kernel_version 232 v5_5_flags
  unfolding adapt_loop
  v5_5-adapted h k = ground arith

  pub v6_2-adapted :
      at_least v (numbered 6 2 0) ≡ true
      → at_least v (numbered 6 7 0) ≡ false
      → adapt_loop v tcp_info_sizes s ≡ settled s.linux_kernel_version 240 v6_2_flags
  unfolding adapt_loop
  v6_2-adapted h k = ground arith

  pub v6_7-adapted :
      at_least v (numbered 6 7 0) ≡ true
      → adapt_loop v tcp_info_sizes s ≡ settled s.linux_kernel_version 248 v6_7_flags
  unfolding adapt_loop
  v6_7-adapted h = ground arith
