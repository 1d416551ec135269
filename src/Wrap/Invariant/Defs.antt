-- ===== src/Wrap/Invariant/Defs.antt =====
-- The invariant of the shared state and of each goroutine.
use conniver.Prelude.{ℕ, ◌+◌, ◌<◌, ◌≡◌, ◌⊎◌, Bool, true, false, is_some, [], ◌∷◌}
use conniver.Prelude.Words.{w64}
use conniver.Prelude.Threads.{sum_below}
use conniver.Wrap.World.{World}
use conniver.Wrap.Conn.{Done, absent, pending, closed, is_set, Conn, closed_state}
use conniver.Wrap.Report.{snapshot_locked}
use conniver.Wrap.System.{
  Shared, Pc, reading, got, writing, sent, finishing, entered, taking, asleep, awake, reporting,
  releasing, joining, rejoining, returned,
}

module _ (W : World) where
  -- Between beginIO and finishIO.
  abbrev pub holds : Pc W → ℕ
  holds (reading _) = 1
  holds (got _ _) = 1
  holds (writing _) = 1
  holds (sent _ _) = 1
  holds finishing = 1
  holds _ = 0

  -- Bytes that the underlying connection has returned and that are not yet counted.
  abbrev pub rx_pending : Pc W → ℕ
  rx_pending (got n _) = n
  rx_pending _ = 0

  abbrev pub tx_pending : Pc W → ℕ
  tx_pending (sent n _) = n
  tx_pending _ = 0

  -- The Close that closes the underlying connection.
  abbrev pub is_closer : Pc W → Bool
  is_closer (entered _) = true
  is_closer (taking _ _) = true
  is_closer (asleep _ _) = true
  is_closer (awake _ _) = true
  is_closer (reporting _ _) = true
  is_closer (releasing _) = true
  is_closer _ = false

  -- The snapshot shows the connection as it is, but for `reconnects`, which callers may still set.
  abbrev pub Shows : Conn W → Conn W → Type 0
  Shows snap w = snap ≡ snapshot_locked W (record w { reconnects = snap.reconnects })

  -- The callback, where there is one, has been called once, with a snapshot of the final state.
  abbrev pub LoggedIf : Bool → Shared W → Type 0
  LoggedIf false m = m.log ≡ []
  LoggedIf true m = (snap : Conn W) × (m.log ≡ (snap, closed_state) ∷ []) × Shows snap m.w

  abbrev pub Logged : Shared W → Type 0
  Logged m = LoggedIf m.w.report_stats m

  -- All I/O has ended, the underlying Close was called once and returned the error that is kept, and
  -- the callback has been called.
  abbrev pub Finished : Shared W → Type 0
  Finished m = (m.w.in_flight ≡ 0) × (m.closes ≡ m.w.close_err ∷ []) × Logged m

  -- The phase of the one Close: not begun, begun, done.
  abbrev pub Before : Shared W → Type 0
  Before m = (m.log ≡ []) × (m.closes ≡ []) × (is_some m.w.conn ≡ true)

  abbrev pub PhaseOf : Done → Shared W → Type 0
  PhaseOf absent m = Before m
  PhaseOf pending m = (m.log ≡ []) ⊎ Finished m
  PhaseOf closed m = Finished m

  abbrev pub Fact : Shared W → Pc W → Type 0
  Fact m (entered _) = (m.w.close_done ≡ pending) × (m.log ≡ []) × (m.closes ≡ [])
  Fact m (taking e _) = (m.w.close_done ≡ pending) × (m.log ≡ []) × (m.closes ≡ e ∷ [])
  Fact m (asleep e _) =
      (m.w.close_done ≡ pending)
      × (m.log ≡ [])
      × (m.closes ≡ e ∷ [])
      × (m.w.close_err ≡ e)
      × (0 < m.w.in_flight)
  Fact m (awake e _) =
      (m.w.close_done ≡ pending)
      × (m.log ≡ [])
      × (m.closes ≡ e ∷ [])
      × (m.w.close_err ≡ e)
      × (m.w.in_flight ≡ 0)
  Fact m (reporting e snap) =
      (m.w.close_done ≡ pending)
      × (m.log ≡ [])
      × (m.closes ≡ e ∷ [])
      × (m.w.close_err ≡ e)
      × (m.w.in_flight ≡ 0)
      × Shows snap m.w
  Fact m (releasing e) =
      (m.w.close_done ≡ pending)
      × (m.closes ≡ e ∷ [])
      × (m.w.close_err ≡ e)
      × (m.w.in_flight ≡ 0)
      × Logged m
  Fact m joining = is_set m.w.close_done ≡ true
  Fact m rejoining = m.w.close_done ≡ closed
  Fact m (returned e) = (m.w.close_done ≡ closed) × (m.w.close_err ≡ e)
  Fact m _ = Unit {0}

  -- `report` says whether there is a callback.
  pub record Inv (n : ℕ) (report : Bool) (m : Shared W) (pc : ℕ → Pc W) : Type 0 where
    pub count : m.w.in_flight ≡ sum_below holds n pc
    pub rx : w64 (m.w.rx_bytes + sum_below rx_pending n pc) ≡ w64 m.rx_total
    pub tx : w64 (m.w.tx_bytes + sum_below tx_pending n pc) ≡ w64 m.tx_total
    pub started : m.w.close_started ≡ is_set m.w.close_done
    pub callback : m.w.report_stats ≡ report
    pub phase : PhaseOf m.w.close_done m
    pub facts : (i : ℕ) → Fact m (pc i)
    pub unique : (i j : ℕ) → is_closer (pc i) ≡ true → is_closer (pc j) ≡ true → i ≡ j
