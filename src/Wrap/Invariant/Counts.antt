-- ===== src/Wrap/Invariant/Counts.antt =====
-- How one move changes the sums over the goroutines, and with them the counting fields.
use conniver.Prelude.{ℕ, ◌+◌, ◌<◌, ◌≤◌, ◌≡◌, refl, Bool, true, false, arith}
use conniver.Prelude.Words.{w64}
use conniver.Prelude.Threads.{
  write_at, sum_below, sum_below-cong, sum_below-write_at, weight-le-sum_below,
}
use conniver.Wrap.World.{World}
use conniver.Wrap.Conn.{
  is_set, begin_io, finish_io, set_reconnects, record_read, record_write, apply_tcp_info_locked,
}
use conniver.Wrap.Close.{close_enter, close_take, close_settle, close_channel}
use conniver.Wrap.System.{
  Shared, Pc, begin_read, begin_write, begin_refused, enter, enter_join, enter_refused, finish,
  Move, wake, asleep,
}
use conniver.Wrap.Invariant.Defs.{Fact, holds, rx_pending, tx_pending, Inv}

module _ (W : World) where
  -- A weight that waking does not change.
  abbrev Steady : (Pc W → ℕ) → Type 0
  Steady weight = (b : Bool) (p : Pc W) → weight (wake W b p) ≡ weight p

  Steady-holds : Steady (holds W)
  Steady-holds false p = refl
  Steady-holds true (asleep e i) = refl
  Steady-holds true _ = refl

  Steady-rx : Steady (rx_pending W)
  Steady-rx false p = refl
  Steady-rx true (asleep e i) = refl
  Steady-rx true _ = refl

  Steady-tx : Steady (tx_pending W)
  Steady-tx false p = refl
  Steady-tx true (asleep e i) = refl
  Steady-tx true _ = refl

  -- The goroutines after a move of number `i`.
  abbrev pub moved_to : (ℕ → Pc W) → Bool → ℕ → Pc W → ℕ → Pc W
  moved_to pc b i p = write_at (λ j. wake W b (pc j)) i p

  exchange :
      (weight : Pc W → ℕ)
      → Steady weight
      → (n : ℕ) (pc : ℕ → Pc W) (b : Bool) (i : ℕ) (p : Pc W) → i < n
      → sum_below weight n (moved_to pc b i p) + weight (pc i) ≡ sum_below weight n pc + weight p
  exchange weight steady n pc b i p h = omega (
    arith,
    sum_below-write_at weight n (λ j. wake W b (pc j)) i p h,
    sum_below-cong weight n (λ j. wake W b (pc j)) pc (λ j. steady b (pc j)),
    steady b (pc i),
  )

  -- What the sums say of a move from `p` to `p'`.
  pub record Exchange (n : ℕ) (pc : ℕ → Pc W) (b : Bool) (i : ℕ) (p p' : Pc W) : Type 0 where
    pub held :
        sum_below (holds W) n (moved_to pc b i p') + holds W p
        ≡ sum_below (holds W) n pc + holds W p'
    pub rx_exchange :
        sum_below (rx_pending W) n (moved_to pc b i p') + rx_pending W p
        ≡ sum_below (rx_pending W) n pc + rx_pending W p'
    pub tx_exchange :
        sum_below (tx_pending W) n (moved_to pc b i p') + tx_pending W p
        ≡ sum_below (tx_pending W) n pc + tx_pending W p'
    pub here : holds W p ≤ sum_below (holds W) n pc

  pub exchanged :
      (n : ℕ) (pc : ℕ → Pc W) (b : Bool) (i : ℕ) (p' : Pc W) → i < n → Exchange n pc b i (pc i) p'
  exchanged n pc b i p' h = record {
    held = exchange (holds W) Steady-holds n pc b i p' h;
    rx_exchange = exchange (rx_pending W) Steady-rx n pc b i p' h;
    tx_exchange = exchange (tx_pending W) Steady-tx n pc b i p' h;
    here = weight-le-sum_below (holds W) n pc i h;
  }

module _ (W : World) {n : ℕ} {report : Bool} {m : Shared W} {pc : ℕ → Pc W}
    (inv : Inv W n report m pc) where
  pub Move-count :
      {p p' : Pc W} {m' : Shared W} {b : Bool} (i : ℕ)
      → Move W m p m' p' b
      → Exchange W n pc b i p p'
      → m'.w.in_flight ≡ sum_below (holds W) n (moved_to W pc b i p')
  unfolding begin_io finish_io set_reconnects record_read record_write close_enter close_take
      close_settle close_channel apply_tcp_info_locked
  Move-count i (begin_read h) x = ground (arith, inv.count)
  Move-count i (begin_write h) x = ground (arith, inv.count)
  Move-count i (begin_refused h) x = ground (arith, inv.count)
  Move-count i finish x = ground (arith, inv.count)
  Move-count i (enter ts h) x = ground (arith, inv.count)
  Move-count i (enter_join ts h) x = ground (arith, inv.count)
  Move-count i (enter_refused ts h) x = ground (arith, inv.count)
  Move-count i mv x = omega (arith, inv.count)

  pub Move-rx :
      {p p' : Pc W} {m' : Shared W} {b : Bool} (i : ℕ)
      → Move W m p m' p' b
      → Exchange W n pc b i p p'
      → w64 (m'.w.rx_bytes + sum_below (rx_pending W) n (moved_to W pc b i p')) ≡ w64 m'.rx_total
  unfolding begin_io finish_io set_reconnects record_read record_write close_enter close_take
      close_settle close_channel apply_tcp_info_locked
  Move-rx i (begin_read h) x = ground (arith, inv.rx)
  Move-rx i (begin_write h) x = ground (arith, inv.rx)
  Move-rx i (begin_refused h) x = ground (arith, inv.rx)
  Move-rx i finish x = ground (arith, inv.rx)
  Move-rx i (enter ts h) x = ground (arith, inv.rx)
  Move-rx i (enter_join ts h) x = ground (arith, inv.rx)
  Move-rx i (enter_refused ts h) x = ground (arith, inv.rx)
  Move-rx i mv x = omega (arith, inv.rx)

  pub Move-tx :
      {p p' : Pc W} {m' : Shared W} {b : Bool} (i : ℕ)
      → Move W m p m' p' b
      → Exchange W n pc b i p p'
      → w64 (m'.w.tx_bytes + sum_below (tx_pending W) n (moved_to W pc b i p')) ≡ w64 m'.tx_total
  unfolding begin_io finish_io set_reconnects record_read record_write close_enter close_take
      close_settle close_channel apply_tcp_info_locked
  Move-tx i (begin_read h) x = ground (arith, inv.tx)
  Move-tx i (begin_write h) x = ground (arith, inv.tx)
  Move-tx i (begin_refused h) x = ground (arith, inv.tx)
  Move-tx i finish x = ground (arith, inv.tx)
  Move-tx i (enter ts h) x = ground (arith, inv.tx)
  Move-tx i (enter_join ts h) x = ground (arith, inv.tx)
  Move-tx i (enter_refused ts h) x = ground (arith, inv.tx)
  Move-tx i mv x = omega (arith, inv.tx)

  -- The flag of closing, and the callback, which no move changes.
  pub Move-started :
      {p p' : Pc W} {m' : Shared W} {b : Bool}
      → Move W m p m' p' b
      → Fact W m p
      → (m'.w.close_started ≡ is_set m'.w.close_done) × (m'.w.report_stats ≡ report)
  unfolding begin_io finish_io set_reconnects record_read record_write close_enter close_take
      close_settle close_channel apply_tcp_info_locked
  Move-started (begin_read h) f = ground (arith, inv.started, inv.callback)
  Move-started mv f = ground (arith, inv.started, inv.callback)
