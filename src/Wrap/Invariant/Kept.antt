-- ===== src/Wrap/Invariant/Kept.antt =====
-- What a move of a goroutine that is not the closing one keeps, once a Close has begun.
use conniver.Prelude.{◌<◌, ◌≤◌, ◌≡◌, refl, ◌⊎◌, inl, ℤ, Bool, true, false, arith}
use conniver.Wrap.World.{World}
use conniver.Wrap.Conn.{
  is_set, Conn, begin_io, finish_io, set_reconnects, record_read, record_write,
}
use conniver.Wrap.Report.{snapshot_locked}
use conniver.Wrap.Close.{close_enter}
use conniver.Wrap.System.{
  Shared, Pc, begin_read, begin_write, begin_refused, enter, enter_join, enter_refused,
  read_returns, write_returns, read_recorded, write_recorded, finish, reconnect, rejoin, receive,
  leave, Move,
}
use conniver.Wrap.Invariant.Defs.{holds, is_closer}

module _ (W : World) where
  -- A snapshot of the second shows the first, whatever `reconnects` is.
  abbrev pub SameShown : Conn W → Conn W → Type 0
  SameShown w w' =
      (r : ℤ)
      → snapshot_locked W (record w' { reconnects = r })
        ≡ snapshot_locked W (record w { reconnects = r })

  pub record Kept (m m' : Shared W) (b : Bool) : Type 0 where
    pub done : m'.w.close_done ≡ m.w.close_done
    pub log : m'.log ≡ m.log
    pub closes : m'.closes ≡ m.closes
    pub close_err : m'.w.close_err ≡ m.w.close_err
    pub report_stats : m'.w.report_stats ≡ m.w.report_stats
    pub fewer : m'.w.in_flight ≤ m.w.in_flight
    pub woken : 0 < m.w.in_flight → (0 < m'.w.in_flight) ⊎ (b ≡ true)
    pub broadcast : b ≡ true → m'.w.in_flight ≡ 0
    pub shown : m.w.in_flight ≡ 0 → SameShown m.w m'.w

  pub Move-Kept :
      {m m' : Shared W} {p p' : Pc W} {b : Bool}
      → Move W m p m' p' b
      → is_closer W p ≡ false
      → holds W p ≤ m.w.in_flight
      → m.w.close_started ≡ true
      → is_set m.w.close_done ≡ true
      → Kept m m' b
  unfolding begin_io finish_io set_reconnects record_read record_write close_enter
  Move-Kept (begin_read h) c q s d = absurd (ground arith)
  Move-Kept (begin_write h) c q s d = absurd (ground arith)
  Move-Kept (begin_refused h) c q s d = rw s (record {
    done = refl;
    log = refl;
    closes = refl;
    close_err = refl;
    report_stats = refl;
    fewer = omega arith;
    woken = λ h. inl h;
    broadcast = λ t. cc;
    shown = λ h r. refl;
  })
  Move-Kept (read_returns n e) c q s d = record {
    done = refl;
    log = refl;
    closes = refl;
    close_err = refl;
    report_stats = refl;
    fewer = omega arith;
    woken = λ h. inl h;
    broadcast = λ t. cc;
    shown = λ h r. refl;
  }
  Move-Kept (write_returns n e) c q s d = record {
    done = refl;
    log = refl;
    closes = refl;
    close_err = refl;
    report_stats = refl;
    fewer = omega arith;
    woken = λ h. inl h;
    broadcast = λ t. cc;
    shown = λ h r. refl;
  }
  Move-Kept (read_recorded ts) c q s d = record {
    done = refl;
    log = refl;
    closes = refl;
    close_err = refl;
    report_stats = refl;
    fewer = omega arith;
    woken = λ h. inl h;
    broadcast = λ t. cc;
    shown = λ z. absurd (omega arith);
  }
  Move-Kept (write_recorded ts) c q s d = record {
    done = refl;
    log = refl;
    closes = refl;
    close_err = refl;
    report_stats = refl;
    fewer = omega arith;
    woken = λ h. inl h;
    broadcast = λ t. cc;
    shown = λ z. absurd (omega arith);
  }
  Move-Kept finish c q s d = record {
    done = ground arith;
    log = refl;
    closes = refl;
    close_err = ground arith;
    report_stats = ground arith;
    fewer = ground arith;
    woken = λ h. ground arith;
    broadcast = λ t. ground arith;
    shown = λ z. absurd (omega arith);
  }
  Move-Kept (reconnect r) c q s d = record {
    done = refl;
    log = refl;
    closes = refl;
    close_err = refl;
    report_stats = refl;
    fewer = omega arith;
    woken = λ h. inl h;
    broadcast = λ t. cc;
    shown = λ h r. refl;
  }
  Move-Kept (enter ts h) c q s d = absurd (ground arith)
  Move-Kept (enter_join ts h) c q s d = rw d (record {
    done = refl;
    log = refl;
    closes = refl;
    close_err = refl;
    report_stats = refl;
    fewer = omega arith;
    woken = λ h. inl h;
    broadcast = λ t. cc;
    shown = λ h r. refl;
  })
  Move-Kept (enter_refused ts h) c q s d = absurd (ground arith)
  Move-Kept (receive h) c q s d = record {
    done = refl;
    log = refl;
    closes = refl;
    close_err = refl;
    report_stats = refl;
    fewer = omega arith;
    woken = λ h. inl h;
    broadcast = λ t. cc;
    shown = λ h r. refl;
  }
  Move-Kept rejoin c q s d = record {
    done = refl;
    log = refl;
    closes = refl;
    close_err = refl;
    report_stats = refl;
    fewer = omega arith;
    woken = λ h. inl h;
    broadcast = λ t. cc;
    shown = λ h r. refl;
  }
  Move-Kept leave c q s d = record {
    done = refl;
    log = refl;
    closes = refl;
    close_err = refl;
    report_stats = refl;
    fewer = omega arith;
    woken = λ h. inl h;
    broadcast = λ t. cc;
    shown = λ h r. refl;
  }
  Move-Kept mv c q s d = cc
