-- ===== src/Wrap/Examples.antt =====
-- The theorems about connections, applied to a read that overlaps a Close.
pub mod Run
use conniver.Prelude.{
  ℕ, ◌+◌, ◌*◌, ◌<◌, ◌≤◌, is_ok, ◌≡◌, refl, Bool, true, false, none, some, err, List, [], ◌∷◌, arith,
  inl,
}
use mathlib.Core.List.{Memᴰ}
use conniver.Prelude.Decimal.{decimal}
use conniver.Prelude.Words.{w64}
use conniver.Prelude.Fields.{num, Entry, always, lookup}
use conniver.Prelude.Threads.{write_at}
use conniver.TcpInfo.Linux.Instance.{linux}
use conniver.Wrap.World.{World}
use conniver.Wrap.Conn.{
  Conn, closed_state, begin_io, finish_io, record_read, live_conn, apply_tcp_info_locked,
}
use conniver.Wrap.Report.{
  Collect, Collected, collect_tcp_info, snapshot_locked, report_opened, apply_options, new_conn,
  wrap_conn_with_context, warnings, conn_entries, to_map, local_addr_string, remote_addr_string,
}
use conniver.Wrap.Close.{close_enter, close_take, close_settle, close_channel, refusal, refused}
use conniver.Wrap.System.{
  Shared, Pc, reading, got, finishing, entered, taking, asleep, reporting, releasing, joining,
  rejoining, returned, enter_join, receive, rejoin, begin_read, read_returns, read_recorded, finish,
  enter, close_returns, take_wait, wake_settle, report, release, wake, System, pick, init, Reach,
  start, later, call_report, leave,
}
use conniver.Wrap.Invariant.{holds, is_closer, LoggedIf}
use conniver.Wrap.Invariant.Step.{Fresh}
use conniver.Wrap.Safety.{
  Reach-reports, Reach-returned, Reach-agrees, Reach-refuses, Reach-unique, Reach-sleeps,
}
use conniver.Wrap.Detached.{Reach-detached}
use conniver.Wrap.Entries.{tagged, conn_map-tagged}
use conniver.Wrap.Progress.{in_call, SomeMoves, Reach-moves}
use conniver.Wrap.Termination.{Onward, stay, go, is_quiet, Onward-bounded, Reach-drains}
use conniver.Wrap.Spec.{Events, promise_of}
use conniver.Wrap.Refinement.{is_live, Later-refines, Reach-accepts}
use conniver.Wrap.Stamps.{
  Transfer, first_of, last_of, record_reads, record_writes, transfers-stamps,
}
use conniver.Wrap.Examples.Run.{
  net, conn, step_to, with_conn, s1, s2, info, s3, s4, s5, s6, s7, last, s8, s9, s10, Fresh-conn,
  r2, r4, r7, r10, s11, s12, s13, l13,
}

at_s10 : s10.pc 1 ≡ returned (some 5)
unfolding native.Mathlib.Decide.ℕ_discrete
at_s10 = refl

at_s4 : s4.pc 1 ≡ asleep (some 5) info
unfolding native.Mathlib.Decide.ℕ_discrete
at_s4 = refl

logged : Memᴰ (last, closed_state) s10.mem.log
unfolding wrap_conn_with_context report_opened apply_options new_conn collect_tcp_info
    apply_tcp_info_locked begin_io close_enter close_take close_settle close_channel record_read
    finish_io native.Mathlib.Decide.ℕ_discrete
logged = Memᴰ.head refl

Reach-reports_example :
    (s10.mem.log ≡ (last, closed_state) ∷ [])
    × (closed_state ≡ closed_state)
    × (s10.mem.closes ≡ s10.mem.w.close_err ∷ [])
    × (w64 last.rx_bytes ≡ w64 s10.mem.rx_total)
    × (w64 last.tx_bytes ≡ w64 s10.mem.tx_total)
Reach-reports_example = Reach-reports net Fresh-conn r10 last closed_state logged

Reach-returned_example :
    (s10.mem.w.close_err ≡ some 5)
    × (s10.mem.closes ≡ some 5 ∷ [])
    × (s10.mem.w.in_flight ≡ 0)
    × LoggedIf net conn.report_stats s10.mem
Reach-returned_example = Reach-returned net Fresh-conn r10 1 (some 5) at_s10

at_s13 : s13.pc 0 ≡ returned s12.mem.w.close_err
unfolding native.Mathlib.Decide.ℕ_discrete
at_s13 = refl

Reach-agrees_example : some 5 ≡ s12.mem.w.close_err
Reach-agrees_example =
    Reach-agrees net Fresh-conn r10 l13 1 0 (some 5) s12.mem.w.close_err at_s10 at_s13

Reach-refuses_example :
    (begin_io net s13.mem.w ≡ (s13.mem.w, err 9))
    × (live_conn net s13.mem.w ≡ err (refusal net (some 5)))
Reach-refuses_example = Reach-refuses net Fresh-conn r10 l13 1 (some 5) at_s10

Reach-sleeps_example : (j : ℕ) × (j < 2) × (0 < holds net (s4.pc j))
Reach-sleeps_example = Reach-sleeps net Fresh-conn r4 1 at_s4

Reach-detached_example :
    (begin_io net last ≡ (last, err 9))
    × (live_conn net last ≡ err (refusal net s10.mem.w.close_err))
    × (close_enter net 200 last ≡ (last, refused (refusal net s10.mem.w.close_err)))
Reach-detached_example = Reach-detached net Fresh-conn r10 last closed_state logged 200

abbrev rx_bytes_entry : Entry
rx_bytes_entry = always "rxBytes" (num conn.rx_bytes)

rx_bytes_tagged : Memᴰ rx_bytes_entry (tagged net conn)
rx_bytes_tagged =
    Memᴰ.tail
      (Memᴰ.tail (Memᴰ.tail (Memᴰ.tail (Memᴰ.tail (Memᴰ.tail (Memᴰ.tail (Memᴰ.head refl)))))))

conn_map-tagged_example : lookup "rxBytes" (to_map net conn) ≡ some (num conn.rx_bytes)
conn_map-tagged_example = conn_map-tagged net conn rx_bytes_entry rx_bytes_tagged

abbrev transfers : List (Transfer net)
transfers = (110, 12, none) ∷ (115, 0, some 3) ∷ (120, 30, none) ∷ []

transfers-stamps_example :
    ((record_reads net transfers conn).first_rx_at ≡ first_of net conn.first_rx_at (110 ∷ 120 ∷ []))
    × ((record_reads net transfers conn).last_rx_at ≡ last_of net conn.last_rx_at (110 ∷ 120 ∷ []))
    × ((record_writes net transfers conn).first_tx_at
        ≡ first_of net conn.first_tx_at (110 ∷ 120 ∷ []))
    × ((record_writes net transfers conn).last_tx_at ≡ last_of net conn.last_tx_at (110 ∷ 120 ∷ []))
transfers-stamps_example =
    transfers-stamps net transfers transfers conn (omega arith, (omega arith, (omega arith, tt)))
      (omega arith, (omega arith, (omega arith, tt)))

Later-refines_example :
    Events net conn.report_stats (promise_of net s10.mem) (promise_of net s13.mem)
Later-refines_example = Later-refines net Fresh-conn r10 l13

Reach-accepts_example :
    is_ok (begin_io net s10.mem.w).1 ≡ is_live net (promise_of net s10.mem).phase
Reach-accepts_example = Reach-accepts net Fresh-conn r10

called_s10 : in_call net (s10.pc 1) ≡ true
unfolding native.Mathlib.Decide.ℕ_discrete
called_s10 = refl

abbrev s_left : System net
s_left = step_to s10 1 s10.mem Pc.idle false

ended : Onward net 2 s10 1 s_left
unfolding native.Mathlib.Decide.ℕ_discrete
ended = go stay 1 (omega arith) called_s10 leave

Onward-bounded_example : 1 ≤ 8 * 2
Onward-bounded_example = Onward-bounded net Fresh-conn r10 ended

Reach-drains_example :
    (k : ℕ) × (t : System net) × Onward net 2 s4 k t × (is_quiet net 2 t.pc ≡ true)
Reach-drains_example = Reach-drains net Fresh-conn r4
