-- ===== src/HttpStat/Final.antt =====
-- The wrapper and httpstat together: what httpstat finds once the connection is closed.
use conniver.Prelude.{ℕ, ◌≡◌, ap, true, Option, some}
use conniver.Prelude.Words.{w64}
use conniver.Wrap.World.{World}
use conniver.Wrap.Conn.{Conn}
use conniver.Wrap.System.{returned, System, Reach}
use conniver.Wrap.Invariant.Step.{Fresh}
use conniver.Wrap.Safety.{Reach-logged}
use conniver.HttpStat.Connection.{get_conniver}

module _ (W : World) where
  -- The wrapper and httpstat together: in every state that goroutines reach on a connection that has
  -- just been wrapped with a callback, when a call of Close is about to return, getConniver gives a
  -- connection, whatever it gave before, and its counts are those of all the bytes that the
  -- underlying Read and Write have returned, modulo 2 ^ 64.
  pub Reach-get_conniver :
      {n : ℕ} {w : Conn W} {s : System W}
      → Fresh W w
      → w.report_stats ≡ true
      → Reach W n w s
      → (i : ℕ) (e : Option W.Err) → s.pc i ≡ returned e
      → (old : Option (Conn W))
      → (snap : Conn W) × (get_conniver W old s.mem.log ≡ some snap)
        × (w64 snap.rx_bytes ≡ w64 s.mem.rx_total)
        × (w64 snap.tx_bytes ≡ w64 s.mem.tx_total)
  unfolding get_conniver
  Reach-get_conniver {s = s} f b r i e at old =
      let (snap, h, rx, tx) = Reach-logged W f b r i e at in
      (snap, ap (get_conniver W old) h, rx, tx)
