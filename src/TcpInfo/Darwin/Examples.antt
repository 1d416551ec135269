-- ===== src/TcpInfo/Darwin/Examples.antt =====
-- A struct of Darwin, and the theorems about it applied.
use conniver.Prelude.{◌≡◌, refl, true, is_some, [], ◌∷◌}
use conniver.Prelude.Text.{codes}
use conniver.TcpInfo.Named.{elements}
use conniver.TcpInfo.Darwin.Raw.{RawInfo}
use conniver.TcpInfo.Darwin.Unpack.{unpack}
use conniver.TcpInfo.Darwin.Options.{options_of, unpack-options_darwin}

abbrev raw : RawInfo
raw = record {
  state = 4;
  send_wscale = 101;
  recv_wscale = 102;
  options = 7;
  flags = 104;
  rto = 105;
  max_seg = 106;
  send_ss_thresh = 107;
  send_cwnd = 108;
  send_wnd = 109;
  send_sb_bytes = 110;
  recv_wnd = 111;
  rtt_cur = 112;
  srtt = 113;
  rtt_var = 114;
  tfo_flags = 115;
  tx_packets = 116;
  tx_bytes = 117;
  tx_retransmit_bytes = 118;
  rx_packets = 119;
  rx_bytes = 120;
  rx_out_of_order_bytes = 121;
  tx_retransmit_packets = 122;
}

unpack-options_darwin_example :
    (elements (unpack raw).tx_options ≡ options_of 7 101)
    × (elements (unpack raw).rx_options ≡ options_of 7 102)
    × (is_some (unpack raw).tx_options ≡ true)
unpack-options_darwin_example = unpack-options_darwin raw

three_options_darwin :
    options_of 7 102
    ≡ record { kind = codes "Timestamps"; value = 0 }
      ∷ record { kind = codes "SACK"; value = 0 }
      ∷ record { kind = codes "WindowScale"; value = 102 }
      ∷ []
three_options_darwin = refl
