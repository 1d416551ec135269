-- ===== src/Wrap/Refinement.antt =====
-- The goroutines keep the promise of Spec: every step is an event of it, or is not to be seen.
use conniver.Prelude.{
  ℕ, ◌-◌, ◌<◌, ◌≤◌, ◌≡◌, refl, sym, ◌∙◌, ap, ◌⊎◌, inl, inr, Bool, true, false, Option, is_ok, [],
  ◌∷◌, ◌++◌, append-nil, arith, Option-cases,
}
use mathlib.Core.Path.{subst, ap₂}
use conniver.Prelude.Words.{w64}
use conniver.Prelude.Threads.{weight-le-sum_below}
use conniver.Wrap.World.{World}
use conniver.Wrap.Conn.{
  Done, absent, pending, closed, is_set, Conn, begin_io, finish_io, record_read, record_write,
  set_reconnects, apply_tcp_info_locked, closed_state,
}
use conniver.Wrap.Close.{close_enter, close_take, close_settle, close_channel}
use conniver.Wrap.System.{
  Shared, Pc, begin_read, begin_write, begin_refused, read_returns, write_returns, finish, enter,
  enter_join, enter_refused, take_wait, take_settle, report, release, call_report, Move, System,
  Step, pick, Reach, later, Later, now, then,
}
use conniver.Wrap.Invariant.{holds, Fact, Shows, LoggedIf, PhaseOf, Inv}
use conniver.Wrap.Sections.{begin_io-cases, finish_io-held, close_enter-cases}
use conniver.Wrap.Invariant.Step.{Fresh, Reach-Inv}
use conniver.Wrap.Safety.{counted, shown_bytes}
use conniver.Wrap.Spec.{
  Phase, live, Promise, report_of, Event, begins, receives, sends, ends, closes, reports, finishes,
  Events, none_more, and_then, phase_of, counts_of, promise_of,
}

module _ (W : World) where
  live_before : (d : Done) (e : Option W.Err) → is_set d ≡ false → phase_of W d e ≡ live
  live_before absent e h = refl
  live_before pending e h = cc
  live_before closed e h = cc

  abbrev Seen : Bool → Shared W → Shared W → Type 0
  Seen r m m' = (promise_of W m ≡ promise_of W m') ⊎ Event W r (promise_of W m) (promise_of W m')

  same_conn : (r : Bool) (m : Shared W) (w : Conn W) → w ≡ m.w → Seen r m (record m { w = w })
  same_conn r m w e = inl (ap (λ x. promise_of W (record m { w = x })) (sym e))

  -- While the channel is open the error of Close is not to be seen.
  same_open :
      (m : Shared W) (e : Option W.Err)
      → m.w.close_done ≡ pending
      → promise_of W m ≡ promise_of W (record m { w = record m.w { close_err = e } })
  same_open m e h =
      ap (λ p. record (promise_of W m) { phase = p })
        (ap (λ d. phase_of W d m.w.close_err) h ∙ sym (ap (λ d. phase_of W d e) h))

  module _ (r : Bool) (m : Shared W) (started : m.w.close_started ≡ is_set m.w.close_done) where
    Seen-begin : Seen r m (record m { w = (begin_io W m.w).0 })
    Seen-begin = elim (begin_io-cases W m.w) [
      | inl e ↦ same_conn r m _ (ap (λ x. x.0) e)
      | inr (s, e, q) ↦ inr (
          subst (λ x. Event W r (promise_of W m) (promise_of W (record m { w = x })))
            (ap (λ x. x.0) (sym e))
            (begins (live_before m.w.close_done m.w.close_err (sym started ∙ q))))
    ]

    Seen-enter : (ts : ℕ) → Seen r m (record m { w = (close_enter W ts m.w).0 })
    Seen-enter ts = elim (close_enter-cases W ts m.w) [
      | inl e ↦ same_conn r m _ e
      | inr (s, e, q) ↦ inr (
          subst (λ x. Event W r (promise_of W m) (promise_of W (record m { w = x })))
            (ap (λ x. x.0) (sym e)) (closes (live_before m.w.close_done m.w.close_err q)))
    ]

    Seen-finish : 0 < m.w.in_flight → Seen r m (record m { w = (finish_io W m.w).0 })
    Seen-finish h = inr (
        subst (λ x. Event W r (promise_of W m) (promise_of W (record m { w = x })))
          (sym (finish_io-held W m.w h)) (ends (m.w.in_flight - 1) (omega arith)))

  -- What is logged is what is reported: both counts of the one snapshot.
  counts_of-LoggedIf :
      (b : Bool) (m : Shared W)
      → LoggedIf W b m
      → counts_of W m.log ≡ report_of W b (w64 m.w.rx_bytes, w64 m.w.tx_bytes)
  counts_of-LoggedIf false m h = ap (counts_of W) h
  counts_of-LoggedIf true m (snap, h, s) =
      let shown = shown_bytes W snap m.w s in
      ap (counts_of W) h ∙ ap₂ (λ a b. (w64 a, w64 b) ∷ []) shown.0 shown.1

  module _ {n : ℕ} {r : Bool} {m : Shared W} {pc : ℕ → Pc W} (inv : Inv W n r m pc) where
    Seen-report :
        (b : Bool) (snap : Conn W)
        → b ≡ r
        → m.w.close_done ≡ pending
        → m.log ≡ []
        → m.w.in_flight ≡ 0
        → Shows W snap m.w
        → Seen r m (record m { log = m.log ++ call_report W b snap })
    Seen-report false snap e d l z s =
        inl (ap (λ x. promise_of W (record m { log = x })) (sym (append-nil m.log)))
    Seen-report true snap e d l z s =
        let shown = shown_bytes W snap m.w s in
        let all = counted W inv z in
        inr (
          subst (λ x. Event W r (promise_of W m) (record (promise_of W m) { reports = x }))
            (ap₂ (λ a b. (a, b) ∷ []) (sym (all.0) ∙ sym (ap w64 shown.0))
                (sym (all.1) ∙ sym (ap w64 shown.1))
              ∙ ap (λ x. counts_of W (x ++ (snap, closed_state) ∷ [])) (sym l))
            (reports (sym e) (ap (λ x. phase_of W x m.w.close_err) d) z (ap (counts_of W) l)))

    Seen-release :
        m.w.close_done ≡ pending
        → m.w.in_flight ≡ 0
        → LoggedIf W m.w.report_stats m
        → Seen r m (record m { w = close_channel W m.w })
    unfolding close_channel
    Seen-release d z l =
        let all = counted W inv z in
        inr (
          finishes m.w.close_err (ap (λ x. phase_of W x m.w.close_err) d) z (
            counts_of-LoggedIf m.w.report_stats m l
            ∙ (ap (λ b. report_of W b (w64 m.w.rx_bytes, w64 m.w.tx_bytes)) inv.callback
                ∙ ap₂ (λ a b. report_of W r (a, b)) all.0 all.1)))

    Move-Seen :
        {p p' : Pc W} {m' : Shared W} {b : Bool}
        → Move W m p m' p' b
        → holds W p ≤ m.w.in_flight
        → Fact W m p
        → Seen r m m'
    unfolding close_take close_settle apply_tcp_info_locked record_read record_write set_reconnects
    Move-Seen (begin_read h) q f = Seen-begin r m inv.started
    Move-Seen (begin_write h) q f = Seen-begin r m inv.started
    Move-Seen (begin_refused h) q f = Seen-begin r m inv.started
    Move-Seen (read_returns k e) q f = inr (receives k (omega arith))
    Move-Seen (write_returns k e) q f = inr (sends k (omega arith))
    Move-Seen finish q f = Seen-finish r m inv.started (omega arith)
    Move-Seen (enter ts h) q f = Seen-enter r m inv.started ts
    Move-Seen (enter_join ts h) q f = Seen-enter r m inv.started ts
    Move-Seen (enter_refused ts h) q f = Seen-enter r m inv.started ts
    Move-Seen (take_wait {e = e} h) q f = inl (same_open m e f.0)
    Move-Seen (take_settle {e = e} h) q f = inl (same_open m e f.0)
    Move-Seen (report {snap = snap}) q f =
        Seen-report m.w.report_stats snap inv.callback f.0 f.1 f.4 f.5
    Move-Seen release q f = Seen-release f.0 f.3 f.4
    Move-Seen mv q f = inl refl

  Step-Seen :
      {n : ℕ} {r : Bool} {s t : System W} → Step W n s t → Inv W n r s.mem s.pc → Seen r s.mem t.mem
  Step-Seen {n} {s = s} (pick i lt mv) inv =
      Move-Seen inv mv (omega (arith, inv.count, weight-le-sum_below (holds W) n s.pc i lt))
        (inv.facts i)

  continued :
      {r : Bool} {a : Promise W} (m m' : Shared W)
      → Events W r a (promise_of W m)
      → Seen r m m'
      → Events W r a (promise_of W m')
  continued {r} {a} m m' es (inl e) = subst (Events W r a) e es
  continued m m' es (inr ev) = and_then es ev

  Reach-Later :
      {n : ℕ} {w : Conn W} {s t : System W} → Reach W n w s → Later W n s t → Reach W n w t
  Reach-Later r now = r
  Reach-Later r (then l st) = later (Reach-Later r l) st

  -- The wrapper refines its promise: whatever the goroutines do from a state that they reach on a
  -- connection that has just been wrapped, in any number of steps, is to be seen as events that the
  -- promise allows, from what the state promises to what the later state does.
  pub Later-refines :
      {n : ℕ} {w : Conn W} {s t : System W}
      → Fresh W w
      → Reach W n w s
      → Later W n s t
      → Events W w.report_stats (promise_of W s.mem) (promise_of W t.mem)
  Later-refines f r now = none_more
  Later-refines {t = u} f r (then {t} l st) =
      continued t.mem u.mem (Later-refines f r l) (Step-Seen st (Reach-Inv W f (Reach-Later r l)))

  abbrev pub is_live : Phase W → Bool
  is_live live = true
  is_live _ = false

  accepts :
      (d : Done) (m : Shared W)
      → PhaseOf W d m
      → m.w.close_started ≡ is_set d
      → is_ok (begin_io W m.w).1 ≡ is_live (phase_of W d m.w.close_err)
  unfolding begin_io
  accepts absent m h started = elim (Option-cases m.w.conn) [
    | inl q ↦ absurd (ground (arith, h.2))
    | inr (s, q) ↦ rw (started, q) refl
  ]
  accepts pending m h started = rw started refl
  accepts closed m h started = rw started refl

  -- In every state that goroutines reach on a connection that has just been wrapped, Read and Write
  -- are let through exactly while the promise is live: from the first Close on they are refused, and
  -- never before.
  pub Reach-accepts :
      {n : ℕ} {w : Conn W} {s : System W}
      → Fresh W w
      → Reach W n w s
      → is_ok (begin_io W s.mem.w).1 ≡ is_live (promise_of W s.mem).phase
  Reach-accepts {s = s} f r =
      let inv = Reach-Inv W f r in accepts s.mem.w.close_done s.mem inv.phase inv.started
