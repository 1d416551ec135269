-- ===== src/TcpInfo/Linux/Coverage.antt =====
-- The length that is asked for covers every field that Unpack reports, but for two ranges of kernels.
use conniver.Prelude.{◌≡◌, refl, inl, inr, Bool, true, false, not, ◌&&◌, arith, Bool-cases}
use conniver.Kernel.{VersionInfo}
use conniver.Kernel.Order.{at_least}
use conniver.TcpInfo.Linux.Raw.{RawTcpInfo}
use conniver.TcpInfo.Linux.Layout.{first_bytes}
use conniver.TcpInfo.Linux.Versions.{numbered, Adapted, tcp_info_sizes, adapt_loop}
use conniver.TcpInfo.Linux.Unpack.{unpack}
use conniver.TcpInfo.Linux.Adapt.{chain}
use conniver.TcpInfo.Linux.Steps

-- The kernel is at least the first version and older than the second.
abbrev pub between : VersionInfo → VersionInfo → VersionInfo → Bool
between v a b = at_least v a && not (at_least v b)

v2_6_2-whole :
    (r : RawTcpInfo) → unpack Steps.v2_6_2_flags (first_bytes 104 r) ≡ unpack Steps.v2_6_2_flags r
unfolding unpack first_bytes
v2_6_2-whole r = refl

v3_15-whole :
    (r : RawTcpInfo) → unpack Steps.v3_15_flags (first_bytes 120 r) ≡ unpack Steps.v3_15_flags r
unfolding unpack first_bytes
v3_15-whole r = refl

v4_1-whole :
    (r : RawTcpInfo) → unpack Steps.v4_1_flags (first_bytes 136 r) ≡ unpack Steps.v4_1_flags r
unfolding unpack first_bytes
v4_1-whole r = refl

v4_2-whole :
    (r : RawTcpInfo) → unpack Steps.v4_2_flags (first_bytes 144 r) ≡ unpack Steps.v4_2_flags r
unfolding unpack first_bytes
v4_2-whole r = refl

v4_6-whole :
    (r : RawTcpInfo) → unpack Steps.v4_6_flags (first_bytes 160 r) ≡ unpack Steps.v4_6_flags r
unfolding unpack first_bytes
v4_6-whole r = refl

v4_10-whole :
    (r : RawTcpInfo) → unpack Steps.v4_10_flags (first_bytes 192 r) ≡ unpack Steps.v4_10_flags r
unfolding unpack first_bytes
v4_10-whole r = refl

v4_18-whole :
    (r : RawTcpInfo) → unpack Steps.v4_18_flags (first_bytes 200 r) ≡ unpack Steps.v4_18_flags r
unfolding unpack first_bytes
v4_18-whole r = refl

v4_19-whole :
    (r : RawTcpInfo) → unpack Steps.v4_19_flags (first_bytes 224 r) ≡ unpack Steps.v4_19_flags r
unfolding unpack first_bytes
v4_19-whole r = refl

v5_4-whole :
    (r : RawTcpInfo) → unpack Steps.v5_4_flags (first_bytes 232 r) ≡ unpack Steps.v5_4_flags r
unfolding unpack first_bytes
v5_4-whole r = refl

v5_5-whole :
    (r : RawTcpInfo) → unpack Steps.v5_5_flags (first_bytes 232 r) ≡ unpack Steps.v5_5_flags r
unfolding unpack first_bytes
v5_5-whole r = refl

v6_7-whole :
    (r : RawTcpInfo) → unpack Steps.v6_7_flags (first_bytes 248 r) ≡ unpack Steps.v6_7_flags r
unfolding unpack first_bytes
v6_7-whole r = refl

-- Reading the first bytes loses nothing that is reported.
abbrev pub IsCovered : Adapted → RawTcpInfo → Type 0
IsCovered g r = unpack g.flags (first_bytes g.size_of_raw_tcp_info r) ≡ unpack g.flags r

module _ (v : VersionInfo) (s : Adapted) (r : RawTcpInfo) where
  IsCovered-old :
      at_least v (numbered 2 6 2) ≡ true
      → at_least v (numbered 4 9 0) ≡ false
      → IsCovered (adapt_loop v tcp_info_sizes s) r
  IsCovered-old h n5 = elim (Bool-cases (at_least v (numbered 4 6 0))) [
    | inl h4 ↦ rw (Steps.v4_6-adapted v s (chain v) h4 n5) (v4_6-whole r)
    | inr n4 ↦ elim (Bool-cases (at_least v (numbered 4 2 0))) [
      | inl h3 ↦ rw (Steps.v4_2-adapted v s (chain v) h3 n4) (v4_2-whole r)
      | inr n3 ↦ elim (Bool-cases (at_least v (numbered 4 1 0))) [
        | inl h2 ↦ rw (Steps.v4_1-adapted v s (chain v) h2 n3) (v4_1-whole r)
        | inr n2 ↦ elim (Bool-cases (at_least v (numbered 3 15 0))) [
          | inl h1 ↦ rw (Steps.v3_15-adapted v s (chain v) h1 n2) (v3_15-whole r)
          | inr n1 ↦ rw (Steps.v2_6_2-adapted v s (chain v) h n1) (v2_6_2-whole r)
        ]
      ]
    ]
  ]

  IsCovered-middle :
      at_least v (numbered 4 10 0) ≡ true
      → at_least v (numbered 5 4 0) ≡ false
      → IsCovered (adapt_loop v tcp_info_sizes s) r
  IsCovered-middle h n9 = elim (Bool-cases (at_least v (numbered 4 19 0))) [
    | inl h8 ↦ rw (Steps.v4_19-adapted v s (chain v) h8 n9) (v4_19-whole r)
    | inr n8 ↦ elim (Bool-cases (at_least v (numbered 4 18 0))) [
      | inl h7 ↦ rw (Steps.v4_18-adapted v s (chain v) h7 n8) (v4_18-whole r)
      | inr n7 ↦ rw (Steps.v4_10-adapted v s (chain v) h n7) (v4_10-whole r)
    ]
  ]

  IsCovered-new :
      at_least v (numbered 5 4 0) ≡ true
      → at_least v (numbered 6 2 0) ≡ false
      → IsCovered (adapt_loop v tcp_info_sizes s) r
  IsCovered-new h n11 = elim (Bool-cases (at_least v (numbered 5 5 0))) [
    | inl h10 ↦ rw (Steps.v5_5-adapted v s (chain v) h10 n11) (v5_5-whole r)
    | inr n10 ↦ rw (Steps.v5_4-adapted v s (chain v) h n10) (v5_4-whole r)
  ]

  -- On every kernel from 2.6.2 on, but for 4.9 and for 6.2 up to 6.6, reading as many bytes as are
  -- asked for loses nothing that Unpack reports.
  pub unpack-IsCovered :
      at_least v (numbered 2 6 2) ≡ true
      → between v (numbered 4 9 0) (numbered 4 10 0) ≡ false
      → between v (numbered 6 2 0) (numbered 6 7 0) ≡ false
      → IsCovered (adapt_loop v tcp_info_sizes s) r
  unpack-IsCovered h gap1 gap2 = elim (Bool-cases (at_least v (numbered 6 7 0))) [
    | inl h12 ↦ rw (Steps.v6_7-adapted v s (chain v) h12) (v6_7-whole r)
    | inr n12 ↦ elim (Bool-cases (at_least v (numbered 5 4 0))) [
      | inl h9 ↦ IsCovered-new h9 (ground arith)
      | inr n9 ↦ elim (Bool-cases (at_least v (numbered 4 10 0))) [
        | inl h6 ↦ IsCovered-middle h6 n9
        | inr n6 ↦ IsCovered-old h (ground arith)
      ]
    ]
  ]
