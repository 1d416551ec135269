-- ===== src/Wrap/Examples/Run.antt =====
-- A read that overlaps a Close, step by step: goroutine 0 reads while goroutine 1 closes.
use conniver.Prelude.{◌∷◌, ℕ, ◌+◌, refl, Bool, true, false, none, some, [], ◌++◌, arith}
use conniver.Prelude.Decimal.{decimal}
use conniver.Prelude.Threads.{write_at}
use conniver.TcpInfo.Linux.Instance.{linux}
use conniver.Wrap.World.{World}
use conniver.Wrap.Conn.{Conn, begin_io, finish_io, record_read, apply_tcp_info_locked}
use conniver.Wrap.Report.{
  Collect, Collected, collect_tcp_info, report_opened, apply_options, new_conn,
  wrap_conn_with_context,
}
use conniver.Wrap.Close.{close_enter, close_take, close_settle, close_channel}
use conniver.Wrap.System.{
  Later, now, then, Shared, Pc, reading, got, finishing, entered, taking, asleep, reporting,
  releasing, joining, rejoining, returned, enter_join, receive, rejoin, begin_read, read_returns,
  read_recorded, finish, enter, close_returns, take_wait, wake_settle, report, release, wake,
  System, pick, init, Reach, start, later, call_report,
}
use conniver.Wrap.Invariant.Step.{Fresh}
use conniver.Wrap.Opening.{wrap_conn_with_context-Fresh}

abbrev pub net : World
net = record {
  Ctx = ℕ;
  Sock = ℕ;
  Addr = ℕ;
  Err = ℕ;
  err_closed = 9;
  timeout = λ e. some false;
  error_text = decimal;
  addr_text = decimal;
  local_addr_of = some;
  remote_addr_of = some;
  is_tcp = λ _. true;
  platform = linux;
}

-- The platform refuses, with error 4.
abbrev pub no_info : Collect net
no_info = record { syscall_conn = none; control = some 4; answer = (none, none) }

abbrev pub conn : Conn net
conn = (wrap_conn_with_context net 0 (some 7) true [] 100 true no_info).0

abbrev pub step_to : System net → ℕ → Shared net → Pc net → Bool → System net
step_to s i m p b = record { mem = m; pc = write_at (λ j. wake net b (s.pc j)) i p }

abbrev pub with_conn : System net → Conn net → Shared net
with_conn s w = record s.mem { w = w }

abbrev pub s1 : System net
s1 = step_to (init net conn) 0 (with_conn (init net conn) (begin_io net conn).0) (reading 7) false

abbrev pub s2 : System net
s2 = step_to s1 1 (with_conn s1 (close_enter net 130 s1.mem.w).0) (entered 7) false

abbrev pub info : Collected net
info = collect_tcp_info net s2.mem.w no_info

abbrev pub s3 : System net
s3 =
    step_to s2 1 (record s2.mem { closes = s2.mem.closes ++ some 5 ∷ [] }) (taking (some 5) info)
      false

abbrev pub s4 : System net
s4 = step_to s3 1 (with_conn s3 (close_take net (some 5) s3.mem.w)) (asleep (some 5) info) false

abbrev pub s5 : System net
s5 = step_to s4 0 (record s4.mem { rx_total = s4.mem.rx_total + 12 }) (got 12 none) false

abbrev pub s6 : System net
s6 = step_to s5 0 (with_conn s5 (record_read net 140 12 none s5.mem.w)) finishing false

abbrev pub s7 : System net
s7 = step_to s6 0 (with_conn s6 (finish_io net s6.mem.w).0) Pc.idle (finish_io net s6.mem.w).1

abbrev pub last : Conn net
last = (close_settle net info.0 info.1 s7.mem.w).1

abbrev pub s8 : System net
s8 =
    step_to s7 1 (with_conn s7 (close_settle net info.0 info.1 s7.mem.w).0)
      (reporting (some 5) last) false

abbrev pub s9 : System net
s9 =
    step_to s8 1 (record s8.mem { log = s8.mem.log ++ call_report net s8.mem.w.report_stats last })
      (releasing (some 5)) false

abbrev pub s10 : System net
s10 = step_to s9 1 (with_conn s9 (close_channel net s9.mem.w)) (returned (some 5)) false

pub Fresh-conn : Fresh net conn
Fresh-conn = wrap_conn_with_context-Fresh net 0 7 true [] 100 true no_info

pub r2 : Reach net 2 conn s2
unfolding wrap_conn_with_context report_opened apply_options new_conn collect_tcp_info
    apply_tcp_info_locked begin_io close_enter native.Mathlib.Decide.ℕ_discrete
r2 =
    later (later start (pick 0 (omega arith) (begin_read refl)))
      (pick 1 (omega arith) (enter 130 refl))

pub r4 : Reach net 2 conn s4
unfolding wrap_conn_with_context report_opened apply_options new_conn collect_tcp_info
    apply_tcp_info_locked begin_io close_enter native.Mathlib.Decide.ℕ_discrete
r4 =
    later (later r2 (pick 1 (omega arith) (close_returns no_info (some 5))))
      (pick 1 (omega arith) (take_wait (omega arith)))

pub r7 : Reach net 2 conn s7
unfolding native.Mathlib.Decide.ℕ_discrete
r7 =
    later
      (later (later r4 (pick 0 (omega arith) (read_returns 12 none)))
        (pick 0 (omega arith) (read_recorded 140)))
      (pick 0 (omega arith) finish)

pub r10 : Reach net 2 conn s10
unfolding wrap_conn_with_context report_opened apply_options new_conn collect_tcp_info
    apply_tcp_info_locked begin_io close_enter close_take record_read finish_io
    native.Mathlib.Decide.ℕ_discrete
r10 =
    later (later (later r7 (pick 1 (omega arith) (wake_settle refl))) (pick 1 (omega arith) report))
      (pick 1 (omega arith) release)

-- The reader calls Close as well, and waits on the closed channel.
abbrev pub s11 : System net
s11 = step_to s10 0 (with_conn s10 (close_enter net 150 s10.mem.w).0) joining false

abbrev pub s12 : System net
s12 = step_to s11 0 s11.mem rejoining false

abbrev pub s13 : System net
s13 = step_to s12 0 s12.mem (returned s12.mem.w.close_err) false

pub l13 : Later net 2 s10 s13
unfolding wrap_conn_with_context report_opened apply_options new_conn collect_tcp_info
    apply_tcp_info_locked begin_io close_enter close_take close_settle close_channel record_read
    finish_io native.Mathlib.Decide.ℕ_discrete
l13 =
    then
      (then (then now (pick 0 (omega arith) (enter_join 150 refl)))
        (pick 0 (omega arith) (receive refl)))
      (pick 0 (omega arith) rejoin)
