-- ===== src/TcpInfo/Darwin/Options.antt =====
-- Unpack decodes the option flags, in both directions.
use Prim.Native.Nat.{bit_and}
use conniver.Prelude.{
  ℕ, ◌≡◌, refl, ◌∙◌, true, List, [], ◌∷◌, ◌++◌, ◌==◌, is_some, arith, if◌then◌else◌,
}
use conniver.Prelude.Text.{codes}
use conniver.Prelude.Bits.{and-flags}
use conniver.TcpInfo.Common.{TcpOption, Slice}
use conniver.TcpInfo.Named.{elements, append_nil, where_set, added, elements-round, added-where_set}
use conniver.TcpInfo.Darwin.Raw.{RawInfo}
use conniver.TcpInfo.Darwin.SysInfo.{SysInfo}
use conniver.TcpInfo.Darwin.Constants.{tcpci_opt_wscale}
use conniver.TcpInfo.Darwin.Unpack.{
  tcp_options, tcp_options_map, unpack_fields, add_option, add_options, unpack,
}

-- Darwin's meaning of the four lowest bits, from TCPCI_OPT_TIMESTAMPS up.
abbrev pub options_of : ℕ → ℕ → List TcpOption
options_of word scale = where_set word 1 (codes "Timestamps") 0 (
    where_set word 2 (codes "SACK") 0
      (where_set word 4 (codes "WindowScale") scale (where_set word 8 (codes "ECN") 0 [])))

-- What the loop appends for a list of flags.
collected : ℕ → ℕ → List ℕ → List TcpOption
collected options scale [] = []
collected options scale (f ∷ fs) =
    added (bit_and options f == 0)
      (record { kind = tcp_options_map f; value = if f == tcpci_opt_wscale then scale else 0 })
    ++ collected options scale fs

add_options-elements_darwin :
    (packed : RawInfo) (fs : List ℕ) (u : SysInfo)
    → (elements (add_options packed fs u).tx_options
        ≡ elements u.tx_options ++ collected packed.options packed.send_wscale fs)
      × (elements (add_options packed fs u).rx_options
          ≡ elements u.rx_options ++ collected packed.options packed.recv_wscale fs)
unfolding add_options collected
add_options-elements_darwin packed [] u = (append_nil _, append_nil _)
add_options-elements_darwin packed (f ∷ fs) u =
    let (tx, rx) = add_options-elements_darwin packed fs _ in
    (
      elements-round (bit_and packed.options f == 0) u.tx_options _ _ _ tx,
      elements-round (bit_and packed.options f == 0) u.rx_options _ _ _ rx,
    )

-- The loop makes no slice nil.
add_option-some :
    (options f scale : ℕ) (s : Slice)
    → is_some s ≡ true
    → is_some (add_option options f scale s) ≡ true
add_option-some options f scale s h = ground (arith, h)

add_options-some :
    (packed : RawInfo) (fs : List ℕ) (u : SysInfo)
    → is_some u.tx_options ≡ true
    → is_some (add_options packed fs u).tx_options ≡ true
unfolding add_options
add_options-some packed [] u h = h
add_options-some packed (f ∷ fs) u h =
    add_options-some packed fs _
      (add_option-some packed.options f packed.send_wscale u.tx_options h)

collected-options_of : (x scale : ℕ) → collected x scale tcp_options ≡ options_of x scale
unfolding collected
collected-options_of x scale =
    let b = and-flags x in
    added-where_set _ x 1 _ _ _ _ (ground (arith, b.0)) (
      added-where_set _ x 2 _ _ _ _ (ground (arith, b.1)) (
        added-where_set _ x 4 _ _ _ _ (ground (arith, b.2))
          (added-where_set _ x 8 _ _ _ _ (ground (arith, b.3)) refl)))

-- On Darwin both lists of options are, in the order of the bits, the options that are meant by those
-- of the four lowest bits of the options word that are set, the window scale with the scale of its
-- direction and the others with 0, and TxOptions is not nil.
pub unpack-options_darwin :
    (packed : RawInfo)
    → (elements (unpack packed).tx_options ≡ options_of packed.options packed.send_wscale)
      × (elements (unpack packed).rx_options ≡ options_of packed.options packed.recv_wscale)
      × (is_some (unpack packed).tx_options ≡ true)
unfolding unpack unpack_fields
unpack-options_darwin packed =
    let u = unpack_fields packed in
    let (tx, rx) = add_options-elements_darwin packed tcp_options u in
    (
      tx ∙ collected-options_of packed.options packed.send_wscale,
      rx ∙ collected-options_of packed.options packed.recv_wscale,
      add_options-some packed tcp_options u refl,
    )
