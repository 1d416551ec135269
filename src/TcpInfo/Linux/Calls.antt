-- ===== src/TcpInfo/Linux/Calls.antt =====
-- GetTCPInfo on every path.
use conniver.Prelude.{
  ℕ, ◌≡◌, ap, inl, inr, Result-cases, Bool, true, false, ◌&&◌, ◌||◌, ◌==◌, is_some, Option, none,
  some, List, [], ◌∷◌, Result, ok, err, is_ok, if◌then◌else◌, arith,
}
use mathlib.Core.List.{map}
use conniver.Prelude.Text.{Text, codes, ◌=ₜ◌, =ₜ_sound}
use conniver.Kernel.{VersionInfo}
use conniver.Kernel.Order.{at_least}
use conniver.TcpInfo.Linux.Raw.{RawTcpInfo}
use conniver.TcpInfo.Linux.Layout.{first_bytes}
use conniver.TcpInfo.Linux.SysInfo.{SysInfo}
use conniver.TcpInfo.Linux.Versions.{
  Flags, Adapted, at_v2_6_2, numbered, tcp_info_sizes, adapt_loop,
}
use conniver.TcpInfo.Linux.Unpack.{unpack}
use conniver.TcpInfo.Linux.Coverage.{between, unpack-IsCovered}
use conniver.TcpInfo.Linux.Adapt.{chain, adapt_loop-flag}
use conniver.TcpInfo.Linux.Socket.{
  Word, handle, number, to_value, to_length, net_get_sock_opt, get_raw_tcp_info_386, TcpInfoPlusCc,
  bare, with_reply, errno, VegasInfo, BbrInfo, DctcpInfo, with_cc, add_vegas, add_bbr, add_dctcp,
  Socket, get_raw_tcp_info, get_tcp_congestion_algorithm, unpack_cc, get_cc_info, get_with_raw,
  get_tcp_info, supported,
}

-- The call gives information exactly where the kernel is supported and TCP_INFO answers without an
-- errno, and it never gives neither information nor an error.
pub get_tcp_info-answers :
    (g : Adapted) (fd : Socket)
    → (is_some (get_tcp_info g fd).0
        ≡ (supported g && ((fd.tcp_info g.size_of_raw_tcp_info).0 == 0)))
      × ((is_some (get_tcp_info g fd).0 || is_some (get_tcp_info g fd).1) ≡ true)
unfolding get_tcp_info supported get_raw_tcp_info get_with_raw get_cc_info
get_tcp_info-answers g fd = (ground arith, ground arith)

unpack_cc-cong :
    (flags : Flags) (a b : RawTcpInfo)
    → unpack flags a ≡ unpack flags b
    → (alg : Text) (v : Option VegasInfo) (w : Option BbrInfo) (d : Option DctcpInfo)
    → unpack_cc flags
        (record { tcp_info = a; cc_alg = alg; cc_vegas = v; cc_bbr = w; cc_dctcp = d })
      ≡ unpack_cc flags
          (record { tcp_info = b; cc_alg = alg; cc_vegas = v; cc_bbr = w; cc_dctcp = d })
unfolding unpack_cc
unpack_cc-cong flags a b e alg v w d =
    let finish : SysInfo → SysInfo = λ u.
      with_cc (alg =ₜ codes "vegas") v add_vegas (record u { cc_algorithm = alg })
        (with_cc (alg =ₜ codes "bbr") w add_bbr (record u { cc_algorithm = alg })
          (with_cc (alg =ₜ codes "dctcp") d add_dctcp (record u { cc_algorithm = alg })
            (record u { cc_algorithm = alg }))) in
    ap finish e

with_reply-cong {ℓ} :
    {A : Type ℓ} (flags : Flags) (a b : TcpInfoPlusCc) (reply : Result ℕ A)
    (f g : A → TcpInfoPlusCc)
    → unpack_cc flags a ≡ unpack_cc flags b
    → ((x : A) → unpack_cc flags (f x) ≡ unpack_cc flags (g x))
    → with_reply flags a reply f ≡ with_reply flags b reply g
with_reply-cong flags a b (err e) f g p q = ap (λ s. (some s, some (errno e))) p
with_reply-cong flags a b (ok x) f g p q = ap (λ s. (some s, none)) (q x)

get_cc_info-cong :
    (flags : Flags) (fd : Socket) (a b : RawTcpInfo) (alg : Text)
    → unpack flags a ≡ unpack flags b
    → get_cc_info flags fd a alg ≡ get_cc_info flags fd b alg
unfolding get_cc_info
get_cc_info-cong flags fd a b alg e =
    let same = unpack_cc-cong flags a b e alg in
    let plain = same none none none in
    ground (
      arith,
      plain,
      with_reply-cong flags (bare a alg) (bare b alg) fd.vegas
          (λ v. record (bare a alg) { cc_vegas = some v })
          (λ v. record (bare b alg) { cc_vegas = some v }) plain (λ v. same (some v) none none),
      with_reply-cong flags (bare a alg) (bare b alg) fd.bbr
          (λ w. record (bare a alg) { cc_bbr = some w })
          (λ w. record (bare b alg) { cc_bbr = some w }) plain (λ w. same none (some w) none),
      with_reply-cong flags (bare a alg) (bare b alg) fd.dctcp
          (λ d. record (bare a alg) { cc_dctcp = some d })
          (λ d. record (bare b alg) { cc_dctcp = some d }) plain (λ d. same none none (some d)),
    )

get_with_raw-cong :
    (flags : Flags) (fd : Socket) (a b : RawTcpInfo)
    → unpack flags a ≡ unpack flags b
    → get_with_raw flags fd a ≡ get_with_raw flags fd b
unfolding get_with_raw
get_with_raw-cong flags fd a b e = elim (Result-cases (get_tcp_congestion_algorithm fd)) [
  | inl (x, q) ↦
      rw (q, get_with_raw)
        (ap (λ s. (some s, some x)) (unpack_cc-cong flags a b e [] none none none))
  | inr (alg, q) ↦ rw (q, get_with_raw) (get_cc_info-cong flags fd a b alg e)
]

-- Where the kernel copies the first bytes of its struct, the call answers as if it had copied the
-- whole struct, on every supported kernel outside the two ranges whose length is too short.
pub get_tcp_info-covered :
    (v : VersionInfo) (s : Adapted) (fd : Socket) (r : RawTcpInfo)
    → ((len : ℕ) → fd.tcp_info len ≡ (0, first_bytes len r))
    → at_least v (numbered 2 6 2) ≡ true
    → between v (numbered 4 9 0) (numbered 4 10 0) ≡ false
    → between v (numbered 6 2 0) (numbered 6 7 0) ≡ false
    → get_tcp_info (adapt_loop v tcp_info_sizes s) fd
      ≡ get_with_raw (adapt_loop v tcp_info_sizes s).flags fd r
unfolding get_tcp_info get_raw_tcp_info
get_tcp_info-covered v s fd r copies h gap1 gap2 = ground (
  arith,
  copies (adapt_loop v tcp_info_sizes s).size_of_raw_tcp_info,
  adapt_loop-flag v s at_v2_6_2 (chain v),
  get_with_raw-cong (adapt_loop v tcp_info_sizes s).flags fd
      (first_bytes (adapt_loop v tcp_info_sizes s).size_of_raw_tcp_info r) r
      (unpack-IsCovered v s r h gap1 gap2),
)

-- Which fields of an algorithm are valid.
abbrev pub vegas_valid : SysInfo → List Bool
vegas_valid s =
    s.cc_vegas_enabled.valid ∷ s.cc_vegas_rtt_cnt.valid ∷ s.cc_vegas_rtt.valid
    ∷ s.cc_vegas_rtt_min.valid ∷ []

abbrev pub bbr_valid : SysInfo → List Bool
bbr_valid s =
    s.cc_bbr_bw_lo.valid ∷ s.cc_bbr_bw_hi.valid ∷ s.cc_bbr_min_rtt.valid
    ∷ s.cc_bbr_pacing_gain.valid ∷ s.cc_bbr_cwindow_gain.valid ∷ []

abbrev pub dctcp_valid : SysInfo → List Bool
dctcp_valid s =
    s.cc_dctcp_enabled.valid ∷ s.cc_dctcp_ce_state.valid ∷ s.cc_dctcp_alpha.valid
    ∷ s.cc_dctcp_ab_ecn.valid ∷ s.cc_dctcp_ab_tot.valid ∷ []

-- The kernel names an algorithm and answers its query.
abbrev pub is_answered {ℓ} : {A : Type ℓ} → Text → Text → Result ℕ A → Bool
is_answered alg name reply = alg =ₜ name && is_ok reply

-- Every field of a congestion control, the four of Vegas, the five of BBR and the five of DCTCP, is
-- valid exactly where the kernel names that algorithm and answers its query.
pub get_cc_info-valid :
    (flags : Flags) (fd : Socket) (raw : RawTcpInfo) (alg : Text) (s : SysInfo)
    → (get_cc_info flags fd raw alg).0 ≡ some s
    → (s.cc_algorithm ≡ alg)
      × (vegas_valid s ≡ map (λ _. is_answered alg (codes "vegas") fd.vegas) (vegas_valid s))
      × (bbr_valid s ≡ map (λ _. is_answered alg (codes "bbr") fd.bbr) (bbr_valid s))
      × (dctcp_valid s ≡ map (λ _. is_answered alg (codes "dctcp") fd.dctcp) (dctcp_valid s))
unfolding get_cc_info unpack_cc unpack
get_cc_info-valid flags fd raw alg s h =
    ground (
      arith,
      =ₜ_sound alg (codes "vegas"),
      =ₜ_sound alg (codes "bbr"),
      =ₜ_sound alg (codes "dctcp"),
    )

-- Where socketcall takes the words of its block as the arguments of getsockopt, the variant for 386
-- answers as the other one does.
get_raw_tcp_info_386-same :
    (socketcall : ℕ → List Word → ℕ × RawTcpInfo)
    → ((fd : Socket) (len : ℕ)
        → socketcall net_get_sock_opt
            (handle fd ∷ number 6 ∷ number 11 ∷ to_value ∷ to_length len ∷ [])
          ≡ fd.tcp_info len)
    → (g : Adapted) (fd : Socket) → get_raw_tcp_info_386 socketcall g fd ≡ get_raw_tcp_info g fd
unfolding get_raw_tcp_info_386 get_raw_tcp_info
get_raw_tcp_info_386-same socketcall kernel g fd =
    ap (λ (r : ℕ × RawTcpInfo). if r.0 == 0 then ok r.1 else err (errno r.0))
      (kernel fd g.size_of_raw_tcp_info)
