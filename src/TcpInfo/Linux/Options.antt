-- ===== src/TcpInfo/Linux/Options.antt =====
-- Unpack decodes the options of tcp_info, and the window scales, without loss.
use Prim.Native.Nat.{bit_and}
use conniver.Prelude.{
  ℕ, zero, suc, ◌+◌, ◌*◌, ◌/◌, ◌%◌, ◌^◌, ◌<◌, ◌≡◌, refl, ◌∙◌, Bool, true, ◌&&◌, List, [], ◌∷◌, ◌++◌,
  ◌==◌, ==_iff, arith, if◌then◌else◌,
}
use conniver.Prelude.Text.{codes}
use conniver.TcpInfo.Common.{TcpOption}
use conniver.TcpInfo.Named.{elements, append_nil, where_set, added, elements-round, added-where_set}
use conniver.TcpInfo.Linux.Raw.{RawTcpInfo}
use conniver.TcpInfo.Linux.SysInfo.{SysInfo}
use conniver.TcpInfo.Linux.Versions.{Flags}
use conniver.TcpInfo.Linux.Constants.{tcpi_opt_wscale}
use conniver.TcpInfo.Linux.Unpack.{
  tcp_options, tcp_options_map, unpack_fields, add_option, add_options, unpack,
}

-- The kernel's meaning of the eight bits, from TCPI_OPT_TIMESTAMPS up.
abbrev pub options_of : ℕ → ℕ → List TcpOption
options_of word scale = where_set word 1 (codes "Timestamps") 0 (
    where_set word 2 (codes "SACK") 0 (
      where_set word 4 (codes "WindowScale") scale (
        where_set word 8 (codes "ECN") 0 (
          where_set word 16 (codes "ECNSeen") 0 (
            where_set word 32 (codes "SYNData") 0 (
              where_set word 64 (codes "UsecTS") 0
                (where_set word 128 (codes "TFOChild") 0 [])))))))

-- What the loop appends for a list of flags.
collected : ℕ → ℕ → List ℕ → List TcpOption
collected options scale [] = []
collected options scale (f ∷ fs) =
    added (bit_and options f == 0)
      (record { kind = tcp_options_map f; value = if f == tcpi_opt_wscale then scale else 0 })
    ++ collected options scale fs

add_options-elements :
    (packed : RawTcpInfo) (fs : List ℕ) (u : SysInfo)
    → (elements (add_options packed fs u).tx_options
        ≡ elements u.tx_options ++ collected packed.options u.tx_window_scale fs)
      × (elements (add_options packed fs u).rx_options
          ≡ elements u.rx_options ++ collected packed.options u.rx_window_scale fs)
unfolding add_options collected
add_options-elements packed [] u = (append_nil _, append_nil _)
add_options-elements packed (f ∷ fs) u =
    let next : SysInfo = record u {
      tx_options = add_option packed.options f u.tx_window_scale u.tx_options;
      rx_options = add_option packed.options f u.rx_window_scale u.rx_options;
    } in
    let (tx, rx) = add_options-elements packed fs next in
    (
      elements-round (bit_and packed.options f == 0) u.tx_options _ _ _ tx,
      elements-round (bit_and packed.options f == 0) u.rx_options _ _ _ rx,
    )

-- A check of every byte, by evaluation.
all_below : ℕ → (ℕ → Bool) → Bool
all_below zero p = true
all_below (suc n) p = p n && all_below n p

all_below-true : (n : ℕ) (p : ℕ → Bool) (x : ℕ) → all_below n p ≡ true → x < n → p x ≡ true
unfolding all_below
all_below-true zero p x h lt = absurd (omega arith)
all_below-true (suc n) p x h lt = ground (arith, all_below-true n p x)

-- The bit of a weight.
is_bit : ℕ → ℕ → Bool
is_bit weight b = bit_and b weight == b / weight % 2 * weight

bit_table :
    (all_below 256 (is_bit 1) ≡ true)
    × (all_below 256 (is_bit 2) ≡ true)
    × (all_below 256 (is_bit 4) ≡ true)
    × (all_below 256 (is_bit 8) ≡ true)
    × (all_below 256 (is_bit 16) ≡ true)
    × (all_below 256 (is_bit 32) ≡ true)
    × (all_below 256 (is_bit 64) ≡ true)
    × (all_below 256 (is_bit 128) ≡ true)
unfolding all_below is_bit
bit_table = (refl, refl, refl, refl, refl, refl, refl, refl)

bit_lem :
    (weight x : ℕ)
    → all_below 256 (is_bit weight) ≡ true
    → x < 256
    → bit_and x weight ≡ x / weight % 2 * weight
unfolding is_bit
bit_lem weight x t h = (==_iff _ _).0 (all_below-true 256 (is_bit weight) x t h)

collected-options_of : (x scale : ℕ) → x < 256 → collected x scale tcp_options ≡ options_of x scale
unfolding collected
collected-options_of x scale h =
    let t = bit_table in
    added-where_set _ x 1 _ _ _ _ (ground (arith, bit_lem 1 x t.0 h)) (
      added-where_set _ x 2 _ _ _ _ (ground (arith, bit_lem 2 x t.1 h)) (
        added-where_set _ x 4 _ _ _ _ (ground (arith, bit_lem 4 x t.2 h)) (
          added-where_set _ x 8 _ _ _ _ (ground (arith, bit_lem 8 x t.3 h)) (
            added-where_set _ x 16 _ _ _ _ (ground (arith, bit_lem 16 x t.4 h)) (
              added-where_set _ x 32 _ _ _ _ (ground (arith, bit_lem 32 x t.5 h)) (
                added-where_set _ x 64 _ _ _ _ (ground (arith, bit_lem 64 x t.6 h))
                  (added-where_set _ x 128 _ _ _ _ (ground (arith, bit_lem 128 x t.7 h)) refl)))))))

nibbles_table : all_below 256 (λ b. bit_and b 0x0f + 16 * (b / 2 ^ 4) == b) ≡ true
unfolding all_below
nibbles_table = refl

nibbles : (b : ℕ) → b < 256 → bit_and b 0x0f + 16 * (b / 2 ^ 4) ≡ b
nibbles b h = (==_iff _ b).0 (all_below-true 256 _ b nibbles_table h)

-- Both lists of options are, in the order of the bits, the options that the kernel means by the bits
-- of the options byte that are set, the window scale with the scale of its direction and the others
-- with 0, and the two window scales make up the byte that they are packed in.
pub unpack-options :
    (flags : Flags) (packed : RawTcpInfo)
    → packed.options < 256
    → packed.bitfield0 < 256
    → (elements (unpack flags packed).tx_options
        ≡ options_of packed.options (unpack flags packed).tx_window_scale)
      × (elements (unpack flags packed).rx_options
          ≡ options_of packed.options (unpack flags packed).rx_window_scale)
      × ((unpack flags packed).tx_window_scale + 16 * (unpack flags packed).rx_window_scale
          ≡ packed.bitfield0)
unfolding unpack unpack_fields
unpack-options flags packed h k =
    let u = unpack_fields flags packed in
    let (tx, rx) = add_options-elements packed tcp_options u in
    (
      tx ∙ collected-options_of packed.options u.tx_window_scale h,
      rx ∙ collected-options_of packed.options u.rx_window_scale h,
      nibbles packed.bitfield0 k,
    )
