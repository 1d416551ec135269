-- ===== src/Get/Once.antt =====
-- The wrapper and cmd/get together.
use conniver.Prelude.{ℕ, ◌≡◌, ap, true, Option, [], ◌∷◌}
use conniver.Prelude.Text.{Text}
use conniver.Prelude.Words.{w64}
use conniver.Wrap.World.{World}
use conniver.Wrap.Conn.{Conn}
use conniver.Wrap.System.{returned, System, Reach}
use conniver.Wrap.Invariant.Step.{Fresh}
use conniver.Wrap.Safety.{Reach-logged}
use conniver.Get.{printed, on_report, output}

module _ (W : World) (duration_string : ℕ → Text) (json : Conn W → Text) where
  -- The wrapper and cmd/get together: in every state that goroutines reach on a connection that has
  -- just been wrapped with a callback, when a call of Close is about to return, the command has
  -- printed one paragraph about the connection, of a snapshot that counts all the bytes that the
  -- underlying Read and Write have returned, modulo 2 ^ 64.
  pub Reach-output :
      {n : ℕ} {w : Conn W} {s : System W}
      → Fresh W w
      → w.report_stats ≡ true
      → Reach W n w s
      → (i : ℕ) (e : Option W.Err) → s.pc i ≡ returned e
      → (snap : Conn W) × (output W duration_string json s.mem.log
          ≡ printed W duration_string json snap ∷ [])
        × (w64 snap.rx_bytes ≡ w64 s.mem.rx_total)
        × (w64 snap.tx_bytes ≡ w64 s.mem.tx_total)
  unfolding output on_report
  Reach-output {s = s} f b r i e at =
      let (snap, h, rx, tx) = Reach-logged W f b r i e at in
      (snap, ap (output W duration_string json) h, rx, tx)
