-- ===== src/Wrap/Invariant/Own.antt =====
-- What a move establishes for the goroutine that makes it, and for the phase of the Close.
use conniver.Prelude.{◌≡◌, refl, Bool, true, false, [], ◌++◌, arith}
use conniver.Wrap.World.{World}
use conniver.Wrap.Conn.{
  Conn, begin_io, local_addr_locked, remote_addr_locked, apply_tcp_info_locked,
}
use conniver.Wrap.Report.{snapshot_locked}
use conniver.Wrap.Close.{close_enter, close_take, close_settle, close_channel}
use conniver.Wrap.System.{
  Shared, Pc, call_report, enter, enter_join, enter_refused, close_returns, take_wait, take_settle,
  wake_wait, wake_settle, report, release, receive, rejoin, Move,
}
use conniver.Wrap.Invariant.Defs.{PhaseOf, Fact, Shows, LoggedIf}
use conniver.Wrap.Invariant.Kept.{SameShown}

module _ (W : World) where
  -- A snapshot shows the state that it is taken of.
  Shows-snapshot : (w : Conn W) → Shows W (snapshot_locked W w) w
  unfolding snapshot_locked
  Shows-snapshot w = refl

  -- close(done) is not to be seen in a snapshot.
  pub SameShown-channel : (w : Conn W) → SameShown W w (close_channel W w)
  unfolding snapshot_locked close_channel local_addr_locked remote_addr_locked
  SameShown-channel w r = refl

  pub LoggedIf-report :
      (r : Bool) (m : Shared W) (snap : Conn W)
      → m.log ≡ []
      → Shows W snap m.w
      → LoggedIf W r (record m { log = m.log ++ call_report W r snap })
  LoggedIf-report false m snap e s = rw e
  LoggedIf-report true m snap e s = (snap, rw e, s)

  module _ {m : Shared W} (phase : PhaseOf W m.w.close_done m) where
    pub Move-own :
        {p p' : Pc W} {m' : Shared W} {b : Bool} → Move W m p m' p' b → Fact W m p → Fact W m' p'
    unfolding begin_io close_enter close_take close_settle close_channel apply_tcp_info_locked
    Move-own (enter ts h) f = ground (arith, phase)
    Move-own (enter_join ts h) f = ground (arith, phase)
    Move-own (enter_refused ts h) f = ground (arith, phase)
    Move-own (close_returns c e) f = ground arith
    Move-own (take_wait h) f = (f.0, f.1, f.2, refl, h)
    Move-own (take_settle h) f = (f.0, f.1, f.2, refl, h, Shows-snapshot _)
    Move-own (wake_wait h) f = (f.0, f.1, f.2, f.3, h)
    Move-own (wake_settle h) f = (f.0, f.1, f.2, f.3, h, Shows-snapshot _)
    Move-own (report {snap = snap}) f =
        (f.0, f.2, f.3, f.4, LoggedIf-report m.w.report_stats m snap f.1 f.5)
    Move-own release f = (refl, f.2)
    Move-own (receive h) f = h
    Move-own rejoin f = (f, refl)
    Move-own mv f = tt
