-- ===== src/Get.antt =====
-- cmd/get/main.go: what its callback prints of a connection. Printing durations and encoding to JSON
-- are parameters.
pub mod Once
use conniver.Prelude.{
  ℕ, Option, none, some, List, [], ◌∷◌, ◌++◌, ◌-◌, ◌+◌, ◌^◌, ◌%◌, ◌==◌, if◌then◌else◌,
}
use conniver.Prelude.Text.{Text, codes}
use conniver.Prelude.Decimal.{decimal_ℤ}
use conniver.Prelude.Words.{w64}
use conniver.TcpInfo.{Info}
use conniver.HttpStat.Connection.{join_with, int64}
use conniver.Wrap.World.{World}
use conniver.Wrap.Conn.{Conn, closed_state}
use conniver.Wrap.Report.{Call, warnings, local_addr_string, remote_addr_string}

module _ (W : World) (duration_string : ℕ → Text) (json : Conn W → Text) where
  -- RTT and RTTVar, or "n/a" for both.
  abbrev rtt_texts : Option (Info W.SysInfo) → Text × Text
  rtt_texts none = (codes "n/a", codes "n/a")
  rtt_texts (some info) = (duration_string info.rtt, duration_string info.rtt_var)

  abbrev bracketed : Text × Text → Text
  bracketed (rtt, var) = rtt ++ (codes "(" ++ (var ++ codes ")"))

  -- c.ClosedAt - c.OpenedAt, as an int64
  abbrev pub took : Conn W → ℕ
  took c = w64 (c.closed_at + (2 ^ 64 - c.opened_at % 2 ^ 64))

  unfoldable pub printed : Conn W → Text
  printed c =
      codes "Connection "
      ++ (local_addr_string W c
          ++ (codes " -> "
              ++ (remote_addr_string W c
                  ++ (codes " took "
                      ++ (duration_string (took c)
                          ++ (codes ", sent:"
                              ++ (decimal_ℤ (int64 c.tx_bytes)
                                  ++ (codes "/recv:"
                                      ++ (decimal_ℤ (int64 c.rx_bytes)
                                          ++ (codes " bytes, starting RTT "
                                              ++ (bracketed (rtt_texts c.opened_info)
                                                  ++ (codes " and ending RTT "
                                                      ++ (bracketed (rtt_texts c.closed_info)
                                                          ++ (codes "\nWarnings:"
                                                            ++ (join_with (codes ", ")
                                                            (warnings W c)
                                                            ++ (codes "\n"
                                                            ++ (json c
                                                            ++ codes "\n\n")))))))))))))))))

  -- The callback: `if state != conniver.Closed { return }`, then Printf.
  unfoldable pub on_report : Call W → List Text
  on_report (c, state) = if state == closed_state then printed c ∷ [] else []

  -- What the calls of the callback print.
  unfoldable pub output : List (Call W) → List Text
  output [] = []
  output (call ∷ calls) = on_report call ++ output calls
