-- ===== src/TcpInfo/Linux/Adapt.antt =====
-- After adaptToKernelVersion each flag says whether the kernel is at least the version of its name.
use conniver.Prelude.{◌≡◌, refl, true, Result, some, arith}
use conniver.Prelude.Text.{Text}
use conniver.Kernel.{VersionInfo, compare_kernel_version}
use conniver.Kernel.Order.{at_least, at_least_trans}
use conniver.TcpInfo.Linux.Versions.{
  Flag, get, numbered, Adapted, tcp_info_sizes, adapt_loop, detect, adapt_to_kernel_version,
  at_v2_6_2, at_v3_15, at_v4_1, at_v4_2, at_v4_6, at_v4_9, at_v4_10, at_v4_18, at_v4_19, at_v5_4,
  at_v5_5, at_v6_2, at_v6_7,
}

-- The version in a flag's name.
abbrev pub version_of : Flag → VersionInfo
version_of at_v2_6_2 = numbered 2 6 2
version_of at_v3_15 = numbered 3 15 0
version_of at_v4_1 = numbered 4 1 0
version_of at_v4_2 = numbered 4 2 0
version_of at_v4_6 = numbered 4 6 0
version_of at_v4_9 = numbered 4 9 0
version_of at_v4_10 = numbered 4 10 0
version_of at_v4_18 = numbered 4 18 0
version_of at_v4_19 = numbered 4 19 0
version_of at_v5_4 = numbered 5 4 0
version_of at_v5_5 = numbered 5 5 0
version_of at_v6_2 = numbered 6 2 0
version_of at_v6_7 = numbered 6 7 0

-- Each version of the table is at least the one before it.
v3_15-v2_6_2 :
    (v : VersionInfo) → at_least v (numbered 3 15 0) ≡ true → at_least v (numbered 2 6 2) ≡ true
v3_15-v2_6_2 v h =
    at_least_trans v (numbered 3 15 0) (numbered 2 6 2) h (unfold compare_kernel_version in refl)

v4_1-v3_15 :
    (v : VersionInfo) → at_least v (numbered 4 1 0) ≡ true → at_least v (numbered 3 15 0) ≡ true
v4_1-v3_15 v h =
    at_least_trans v (numbered 4 1 0) (numbered 3 15 0) h (unfold compare_kernel_version in refl)

v4_2-v4_1 :
    (v : VersionInfo) → at_least v (numbered 4 2 0) ≡ true → at_least v (numbered 4 1 0) ≡ true
v4_2-v4_1 v h =
    at_least_trans v (numbered 4 2 0) (numbered 4 1 0) h (unfold compare_kernel_version in refl)

v4_6-v4_2 :
    (v : VersionInfo) → at_least v (numbered 4 6 0) ≡ true → at_least v (numbered 4 2 0) ≡ true
v4_6-v4_2 v h =
    at_least_trans v (numbered 4 6 0) (numbered 4 2 0) h (unfold compare_kernel_version in refl)

v4_9-v4_6 :
    (v : VersionInfo) → at_least v (numbered 4 9 0) ≡ true → at_least v (numbered 4 6 0) ≡ true
v4_9-v4_6 v h =
    at_least_trans v (numbered 4 9 0) (numbered 4 6 0) h (unfold compare_kernel_version in refl)

v4_10-v4_9 :
    (v : VersionInfo) → at_least v (numbered 4 10 0) ≡ true → at_least v (numbered 4 9 0) ≡ true
v4_10-v4_9 v h =
    at_least_trans v (numbered 4 10 0) (numbered 4 9 0) h (unfold compare_kernel_version in refl)

v4_18-v4_10 :
    (v : VersionInfo) → at_least v (numbered 4 18 0) ≡ true → at_least v (numbered 4 10 0) ≡ true
v4_18-v4_10 v h =
    at_least_trans v (numbered 4 18 0) (numbered 4 10 0) h (unfold compare_kernel_version in refl)

v4_19-v4_18 :
    (v : VersionInfo) → at_least v (numbered 4 19 0) ≡ true → at_least v (numbered 4 18 0) ≡ true
v4_19-v4_18 v h =
    at_least_trans v (numbered 4 19 0) (numbered 4 18 0) h (unfold compare_kernel_version in refl)

v5_4-v4_19 :
    (v : VersionInfo) → at_least v (numbered 5 4 0) ≡ true → at_least v (numbered 4 19 0) ≡ true
v5_4-v4_19 v h =
    at_least_trans v (numbered 5 4 0) (numbered 4 19 0) h (unfold compare_kernel_version in refl)

v5_5-v5_4 :
    (v : VersionInfo) → at_least v (numbered 5 5 0) ≡ true → at_least v (numbered 5 4 0) ≡ true
v5_5-v5_4 v h =
    at_least_trans v (numbered 5 5 0) (numbered 5 4 0) h (unfold compare_kernel_version in refl)

v6_2-v5_5 :
    (v : VersionInfo) → at_least v (numbered 6 2 0) ≡ true → at_least v (numbered 5 5 0) ≡ true
v6_2-v5_5 v h =
    at_least_trans v (numbered 6 2 0) (numbered 5 5 0) h (unfold compare_kernel_version in refl)

v6_7-v6_2 :
    (v : VersionInfo) → at_least v (numbered 6 7 0) ≡ true → at_least v (numbered 6 2 0) ≡ true
v6_7-v6_2 v h =
    at_least_trans v (numbered 6 7 0) (numbered 6 2 0) h (unfold compare_kernel_version in refl)

-- All thirteen answers, as a chain of implications.
pub record Chain (v : VersionInfo) : Type 0 where
  pub v3_15_v2_6_2 : at_least v (numbered 3 15 0) ≡ true → at_least v (numbered 2 6 2) ≡ true
  pub v4_1_v3_15 : at_least v (numbered 4 1 0) ≡ true → at_least v (numbered 3 15 0) ≡ true
  pub v4_2_v4_1 : at_least v (numbered 4 2 0) ≡ true → at_least v (numbered 4 1 0) ≡ true
  pub v4_6_v4_2 : at_least v (numbered 4 6 0) ≡ true → at_least v (numbered 4 2 0) ≡ true
  pub v4_9_v4_6 : at_least v (numbered 4 9 0) ≡ true → at_least v (numbered 4 6 0) ≡ true
  pub v4_10_v4_9 : at_least v (numbered 4 10 0) ≡ true → at_least v (numbered 4 9 0) ≡ true
  pub v4_18_v4_10 : at_least v (numbered 4 18 0) ≡ true → at_least v (numbered 4 10 0) ≡ true
  pub v4_19_v4_18 : at_least v (numbered 4 19 0) ≡ true → at_least v (numbered 4 18 0) ≡ true
  pub v5_4_v4_19 : at_least v (numbered 5 4 0) ≡ true → at_least v (numbered 4 19 0) ≡ true
  pub v5_5_v5_4 : at_least v (numbered 5 5 0) ≡ true → at_least v (numbered 5 4 0) ≡ true
  pub v6_2_v5_5 : at_least v (numbered 6 2 0) ≡ true → at_least v (numbered 5 5 0) ≡ true
  pub v6_7_v6_2 : at_least v (numbered 6 7 0) ≡ true → at_least v (numbered 6 2 0) ≡ true

pub chain : (v : VersionInfo) → Chain v
chain v = record {
  v3_15_v2_6_2 = v3_15-v2_6_2 v;
  v4_1_v3_15 = v4_1-v3_15 v;
  v4_2_v4_1 = v4_2-v4_1 v;
  v4_6_v4_2 = v4_6-v4_2 v;
  v4_9_v4_6 = v4_9-v4_6 v;
  v4_10_v4_9 = v4_10-v4_9 v;
  v4_18_v4_10 = v4_18-v4_10 v;
  v4_19_v4_18 = v4_19-v4_18 v;
  v5_4_v4_19 = v5_4-v4_19 v;
  v5_5_v5_4 = v5_5-v5_4 v;
  v6_2_v5_5 = v6_2-v5_5 v;
  v6_7_v6_2 = v6_7-v6_2 v;
}

pub adapt_loop-flag :
    (v : VersionInfo) (s : Adapted) (f : Flag)
    → Chain v
    → get f (adapt_loop v tcp_info_sizes s).flags ≡ at_least v (version_of f)
unfolding adapt_loop
adapt_loop-flag v s at_v2_6_2 c = ground arith
adapt_loop-flag v s at_v3_15 c = ground arith
adapt_loop-flag v s at_v4_1 c = ground arith
adapt_loop-flag v s at_v4_2 c = ground arith
adapt_loop-flag v s at_v4_6 c = ground arith
adapt_loop-flag v s at_v4_9 c = ground arith
adapt_loop-flag v s at_v4_10 c = ground arith
adapt_loop-flag v s at_v4_18 c = ground arith
adapt_loop-flag v s at_v4_19 c = ground arith
adapt_loop-flag v s at_v5_4 c = ground arith
adapt_loop-flag v s at_v5_5 c = ground arith
adapt_loop-flag v s at_v6_2 c = ground arith
adapt_loop-flag v s at_v6_7 c = ground arith

-- Whatever the flags were before, after adaptToKernelVersion each flag is true exactly where the
-- kernel, as detected, is at least the version in the flag's name.
pub adapt_to_kernel_version-flag :
    (found : Result Text VersionInfo) (s : Adapted) (f : Flag)
    → get f (adapt_to_kernel_version found s).flags
      ≡ at_least (detect found s.linux_kernel_version) (version_of f)
unfolding adapt_to_kernel_version
adapt_to_kernel_version-flag found s f =
    let v = detect found s.linux_kernel_version in
    adapt_loop-flag v (record s { linux_kernel_version = some v }) f (chain v)
