-- ===== src/Wrap/Sections.antt =====
-- What the sections of beginIO, finishIO and Close leave behind, by what they answer.
use conniver.Prelude.{
  ℕ, ◌+◌, ◌-◌, ◌<◌, ◌≡◌, refl, ◌⊎◌, inl, inr, true, false, Bool-cases, Option-cases, ok, err, arith,
}
use conniver.Wrap.World.{World}
use conniver.Wrap.Conn.{pending, is_set, Conn, begin_io, finish_io}
use conniver.Wrap.Close.{proceed, close_enter}

module _ (W : World) where
  abbrev pub with_transfer : Conn W → Conn W
  with_transfer w = record w { in_flight = w.in_flight + 1 }

  abbrev pub with_close : ℕ → Conn W → Conn W
  with_close ts w = record w { close_started = true; closed_at = ts; close_done = pending }

  -- Refused and left as it was, or one more in flight before any Close.
  pub begin_io-cases :
      (w : Conn W)
      → (begin_io W w ≡ (w, err W.err_closed))
        ⊎ ((sock : W.Sock) × (begin_io W w ≡ (with_transfer w, ok sock))
            × (w.close_started ≡ false))
  unfolding begin_io
  begin_io-cases w = elim (Bool-cases w.close_started) [
    | inl e ↦ inl (rw e refl)
    | inr e ↦ elim (Option-cases w.conn) [
      | inl q ↦ inl (rw (e, q) refl)
      | inr (s, q) ↦ inr (s, rw (e, q) refl, e)
    ]
  ]

  pub finish_io-held :
      (w : Conn W) → 0 < w.in_flight → (finish_io W w).0 ≡ record w { in_flight = w.in_flight - 1 }
  unfolding finish_io
  finish_io-held w h = ground arith

  -- Left as it was, or the first Close.
  pub close_enter-cases :
      (ts : ℕ) (w : Conn W)
      → ((close_enter W ts w).0 ≡ w)
        ⊎ ((sock : W.Sock) × (close_enter W ts w ≡ (with_close ts w, proceed sock))
            × (is_set w.close_done ≡ false))
  unfolding close_enter
  close_enter-cases ts w = elim (Bool-cases (is_set w.close_done)) [
    | inl e ↦ inl (rw e refl)
    | inr e ↦ elim (Option-cases w.conn) [
      | inl q ↦ inl (rw (e, q) refl)
      | inr (s, q) ↦ inr (s, rw (e, q) refl, e)
    ]
  ]
