-- ===== src/HttpStat/Connection.antt =====
-- cmd/httpstat/main.go: the connection that visit dials, and what it prints of it afterwards.
-- net.SplitHostPort and the printing of durations are parameters; colors and the encoding to JSON are
-- left out.
use conniver.Prelude.{
  ℕ, ◌-◌, ◌^◌, Bool, Option, none, some, List, [], ◌∷◌, ◌++◌, ltb, ◌==◌, if◌then◌else◌, ℤ, pos,
  negsuc,
}
use conniver.Prelude.Text.{Text, codes, ◌=ₜ◌}
use conniver.Prelude.Decimal.{decimal_ℤ}
use conniver.Prelude.Fields.{Fields}
use conniver.TcpInfo.{Info}
use conniver.Wrap.World.{World}
use conniver.Wrap.Conn.{Conn, closed_state}
use conniver.Wrap.Report.{Call, warnings, remote_addr_string, to_map}
use conniver.HttpStat.Start.{Flags}

-- The network that is dialed.
unfoldable pub network : Flags → Text
network flags =
    if flags.four_only then codes "tcp4" else if flags.six_only then codes "tcp6" else codes "tcp"

abbrev or_whole : Text → Option Text → Text
or_whole host none = host
or_whole host (some h) = h

-- The tls.Config of a visit; none but for https. `split` is the host of net.SplitHostPort.
pub record TlsConfig (Certs : Type 0) : Type 0 where
  pub server_name : Text
  pub insecure_skip_verify : Bool
  pub certificates : Certs
  pub min_version : ℕ

unfoldable pub tls_config :
    {Certs : Type 0} → Flags → (Text → Option Text) → Certs → Text → Text → Option (TlsConfig Certs)
tls_config flags split certs scheme host =
    if scheme =ₜ codes "https"
    then some (record {
      server_name = or_whole host (split host);
      insecure_skip_verify = flags.insecure;
      certificates = certs;
      min_version = 771;
    })
    else none

-- From the version in resp.TLS, where that is not nil.
unfoldable pub connected_via : Option ℕ → Text
connected_via none = codes "plaintext"
connected_via (some v) =
    if v == 771 then codes "TLSv1.2" else if v == 772 then codes "TLSv1.3" else codes "plaintext"

-- strings.Join
abbrev pub join_with : Text → List Text → Text
join_with sep [] = []
join_with sep (s ∷ []) = s
join_with sep (s ∷ t ∷ ts) = s ++ (sep ++ join_with sep (t ∷ ts))

-- %d of an int64, from its bit pattern
unfoldable pub int64 : ℕ → ℤ
int64 n = if ltb n (2 ^ 63) then pos n else negsuc (2 ^ 64 - n - 1)

module _ (W : World) where
  -- The callback that dialContext gives to WrapConn: setConniver of what is closed.
  abbrev pub on_report : Option (Conn W) → Call W → Option (Conn W)
  on_report old (conn, state) = if state == closed_state then some conn else old

  -- getConniver, after calls of the callback.
  unfoldable pub get_conniver : Option (Conn W) → List (Call W) → Option (Conn W)
  get_conniver c [] = c
  get_conniver c (call ∷ calls) = get_conniver (on_report c call) calls

  -- A line that is printed: a label and a text, or the fields of ToMap.
  pub data Line : Type 0 where
    labelled : Text → Text → Line
    diagnostics : Fields → Line

  abbrev warning_lines : List Text → List Line
  warning_lines [] = []
  warning_lines (w ∷ ws) = labelled (codes "Warnings") (join_with (codes ", ") (w ∷ ws)) ∷ []

  abbrev bytes : ℕ → Text
  bytes n = decimal_ℤ (int64 n) ++ codes " bytes"

  abbrev info_lines : (ℕ → Text) → Conn W → Option (Info W.SysInfo) → List Line
  info_lines duration_string c none = []
  info_lines duration_string c (some info) =
      labelled (codes "Remote") (remote_addr_string W c)
      ∷ labelled (codes "RTT") (duration_string info.rtt)
      ∷ labelled (codes "Sent") (bytes c.tx_bytes)
      ∷ labelled (codes "Received") (bytes c.rx_bytes)
      ∷ (warning_lines (warnings W c) ++ diagnostics (to_map W c) ∷ [])

  -- The lines about the connection, at the end of visit.
  unfoldable pub conn_lines : (ℕ → Text) → Option (Conn W) → List Line
  conn_lines duration_string none = []
  conn_lines duration_string (some c) = info_lines duration_string c c.closed_info
