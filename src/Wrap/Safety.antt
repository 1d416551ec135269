-- ===== src/Wrap/Safety.antt =====
-- What callers see of Close, Read and Write when any number of goroutines share a connection.
use conniver.Prelude.{
  ℕ, ◌<◌, ◌≡◌, refl, sym, ◌∙◌, ap, inl, inr, Bool, true, false, Option, err, [], ◌∷◌, arith,
}
use mathlib.Core.Path.{subst}
use mathlib.Core.List.{Memᴰ}
use conniver.Prelude.Words.{w64}
use conniver.Prelude.Threads.{sum_below, sum_below-null, sum_below-positive}
use conniver.Wrap.World.{World}
use conniver.Wrap.Conn.{
  Done, absent, pending, closed, is_set, Conn, closed_state, begin_io, live_conn,
}
use conniver.Wrap.Report.{Call, snapshot_locked}
use conniver.Wrap.Close.{refusal}
use conniver.Wrap.System.{
  Shared, Pc, got, sent, asleep, returned, System, Reach, later, Later, now, then,
}
use conniver.Wrap.Invariant.{
  holds, rx_pending, tx_pending, is_closer, PhaseOf, Fact, Shows, LoggedIf, Finished, Inv,
}
use conniver.Wrap.Invariant.Step.{Fresh, Reach-Inv, Step-closed}

module _ (W : World) where
  held-rx : (p : Pc W) → holds W p ≡ 0 → rx_pending W p ≡ 0
  held-rx (got n e) h = absurd (omega arith)
  held-rx _ h = refl

  held-tx : (p : Pc W) → holds W p ≡ 0 → tx_pending W p ≡ 0
  held-tx (sent n e) h = absurd (omega arith)
  held-tx _ h = refl

  -- In every state that goroutines reach on a connection that has just been wrapped: when a call of
  -- Close is about to return `e`, the underlying Close has been called exactly once and has itself
  -- returned `e`, which the connection keeps, no I/O is in flight, and the report callback, where
  -- there is one, has been called exactly once, with a snapshot of the connection in the state Closed.
  pub Reach-returned :
      {n : ℕ} {w : Conn W} {s : System W}
      → Fresh W w
      → Reach W n w s
      → (i : ℕ) (e : Option W.Err) → s.pc i ≡ returned e
      → (s.mem.w.close_err ≡ e)
        × (s.mem.closes ≡ e ∷ [])
        × (s.mem.w.in_flight ≡ 0)
        × LoggedIf W w.report_stats s.mem
  Reach-returned {s = s} f r i e at =
      let inv = Reach-Inv W f r in
      let fact : Fact W s.mem (returned e) = subst (Fact W s.mem) at (inv.facts i) in
      let done : Finished W s.mem = subst (λ d. PhaseOf W d s.mem) fact.0 inv.phase in
      (
        fact.1,
        done.1 ∙ ap (λ x. x ∷ []) fact.1,
        done.0,
        subst (λ b. LoggedIf W b s.mem) inv.callback done.2,
      )

  after_closed :
      {n : ℕ} {w : Conn W} {s t : System W}
      → Fresh W w
      → Reach W n w s
      → Later W n s t
      → s.mem.w.close_done ≡ closed
      → Reach W n w t × (t.mem.w.close_done ≡ closed) × (t.mem.w.close_err ≡ s.mem.w.close_err)
  after_closed f r now e = (r, e, refl)
  after_closed f r (then l st) e =
      let (r', e', same) = after_closed f r l e in
      let (e'', same') = Step-closed W st (Reach-Inv W f r') e' in (later r' st, e'', same' ∙ same)

  returned_closed :
      {n : ℕ} {w : Conn W} {s : System W}
      → Fresh W w
      → Reach W n w s
      → (i : ℕ) (e : Option W.Err) → s.pc i ≡ returned e
      → (s.mem.w.close_done ≡ closed) × (s.mem.w.close_err ≡ e)
  returned_closed {s = s} f r i e at = subst (Fact W s.mem) at ((Reach-Inv W f r).facts i)

  -- All calls of Close on a connection return the same error: one that is about to return in a
  -- state that goroutines reach after the wrapping, and one that is about to return then or at any
  -- later time.
  pub Reach-agrees :
      {n : ℕ} {w : Conn W} {s t : System W}
      → Fresh W w
      → Reach W n w s
      → Later W n s t
      → (i j : ℕ) (a b : Option W.Err) → s.pc i ≡ returned a
      → t.pc j ≡ returned b
      → a ≡ b
  Reach-agrees f r l i j a b p q =
      let (e, first) = returned_closed f r i a p in
      let (r', e', same) = after_closed f r l e in
      sym first ∙ (sym same ∙ (returned_closed f r' j b q).1)

  -- From the time when a call of Close is about to return `e`, in a state that goroutines reach
  -- after the wrapping, Read and Write are refused with net.ErrClosed for ever, and what needs the
  -- live connection with `e`, or net.ErrClosed where `e` is nil.
  pub Reach-refuses :
      {n : ℕ} {w : Conn W} {s t : System W}
      → Fresh W w
      → Reach W n w s
      → Later W n s t
      → (i : ℕ) (e : Option W.Err) → s.pc i ≡ returned e
      → (begin_io W t.mem.w ≡ (t.mem.w, err W.err_closed))
        × (live_conn W t.mem.w ≡ err (refusal W e))
  unfolding begin_io live_conn
  Reach-refuses {t = t} f r l i e at =
      let (d, first) = returned_closed f r i e at in
      let (r', d', same) = after_closed f r l d in
      let started : t.mem.w.close_started ≡ true = (Reach-Inv W f r').started ∙ ap is_set d' in
      (ground (arith, started), ground (arith, started, same ∙ first))

  -- In every state that goroutines reach on a connection that has just been wrapped at most one
  -- goroutine is in the part of Close that closes the underlying connection and reports.
  pub Reach-unique :
      {n : ℕ} {w : Conn W} {s : System W}
      → Fresh W w
      → Reach W n w s
      → (i j : ℕ) → is_closer W (s.pc i) ≡ true
      → is_closer W (s.pc j) ≡ true
      → i ≡ j
  Reach-unique f r = (Reach-Inv W f r).unique

  -- No wake-up is lost: in every state that goroutines reach on a connection that has just been
  -- wrapped, while the Close sleeps, some goroutine is between beginIO and finishIO, so that a
  -- finishIO is still to come.
  pub Reach-sleeps :
      {n : ℕ} {w : Conn W} {s : System W}
      → Fresh W w
      → Reach W n w s
      → (i : ℕ) {e : Option W.Err} {info : _} → s.pc i ≡ asleep e info
      → (j : ℕ) × (j < n) × (0 < holds W (s.pc j))
  Reach-sleeps {n} {s = s} f r i {e} {info} at =
      let inv = Reach-Inv W f r in
      let fact : Fact W s.mem (asleep e info) = subst (Fact W s.mem) at (inv.facts i) in
      sum_below-positive (holds W) n s.pc (omega (arith, inv.count, fact.4))

  -- With nothing in flight every byte has been counted.
  pub counted :
      {n : ℕ} {report : Bool} {m : Shared W} {pc : ℕ → Pc W}
      → Inv W n report m pc
      → m.w.in_flight ≡ 0
      → (w64 m.w.rx_bytes ≡ w64 m.rx_total) × (w64 m.w.tx_bytes ≡ w64 m.tx_total)
  counted {n} {pc = pc} inv z =
      let none_held : sum_below (holds W) n pc ≡ 0 = sym inv.count ∙ z in
      (
        omega (arith, inv.rx, sum_below-null (holds W) (rx_pending W) held-rx n pc none_held),
        omega (arith, inv.tx, sum_below-null (holds W) (tx_pending W) held-tx n pc none_held),
      )

  Finished-log :
      (d : Done) (m : Shared W) (c : Call W) → Memᴰ c m.log → PhaseOf W d m → Finished W m
  Finished-log absent m c q h = elim (subst (Memᴰ c) h.0 q) [ ]
  Finished-log pending m c q (inl h) = elim (subst (Memᴰ c) h q) [ ]
  Finished-log pending m c q (inr h) = h
  Finished-log closed m c q h = h

  single : (c d : Call W) → Memᴰ c (d ∷ []) → c ≡ d
  single c d (Memᴰ.head p) = p
  single c d (Memᴰ.tail q) = elim q [ ]

  pub shown_bytes :
      (snap w : Conn W)
      → Shows W snap w
      → (snap.rx_bytes ≡ w.rx_bytes) × (snap.tx_bytes ≡ w.tx_bytes)
  unfolding snapshot_locked
  shown_bytes snap w h = (ap (λ x. x.rx_bytes) h, ap (λ x. x.tx_bytes) h)

  final_of :
      (b : Bool) (m : Shared W) (c : Call W)
      → Memᴰ c m.log
      → LoggedIf W b m
      → (m.log ≡ c ∷ []) × (c.1 ≡ closed_state) × Shows W c.0 m.w
  final_of false m c q h = elim (subst (Memᴰ c) h q) [ ]
  final_of true m c q (snap, h, s) =
      let e : c ≡ (snap, closed_state) = single c (snap, closed_state) (subst (Memᴰ c) h q) in
      (
        h ∙ ap (λ x. x ∷ []) (sym e),
        ap (λ x. x.1) e,
        subst (λ x. Shows W x m.w) (ap (λ x. x.0) (sym e)) s,
      )

  pub Reach-Shows :
      {n : ℕ} {w : Conn W} {s : System W}
      → Fresh W w
      → Reach W n w s
      → (snap : Conn W) (state : ℕ) → Memᴰ (snap, state) s.mem.log
      → Shows W snap s.mem.w
  Reach-Shows {s = s} f r snap state q =
      let done = Finished-log s.mem.w.close_done s.mem (snap, state) q (Reach-Inv W f r).phase in
      (final_of s.mem.w.report_stats s.mem (snap, state) q done.2).2

  -- In every state that goroutines reach on a connection that has just been wrapped, whatever the
  -- callback has been called with since the wrapping: it is the only call, in the state Closed,
  -- after the one Close of the underlying connection, whose error the connection keeps, and its snapshot counts every byte that the
  -- underlying Read and Write have ever returned, modulo 2 ^ 64.
  pub Reach-reports :
      {n : ℕ} {w : Conn W} {s : System W}
      → Fresh W w
      → Reach W n w s
      → (snap : Conn W) (state : ℕ) → Memᴰ (snap, state) s.mem.log
      → (s.mem.log ≡ (snap, state) ∷ [])
        × (state ≡ closed_state)
        × (s.mem.closes ≡ s.mem.w.close_err ∷ [])
        × (w64 snap.rx_bytes ≡ w64 s.mem.rx_total)
        × (w64 snap.tx_bytes ≡ w64 s.mem.tx_total)
  Reach-reports {s = s} f r snap state q =
      let inv = Reach-Inv W f r in
      let done = Finished-log s.mem.w.close_done s.mem (snap, state) q inv.phase in
      let final = final_of s.mem.w.report_stats s.mem (snap, state) q done.2 in
      let shown = shown_bytes snap s.mem.w final.2 in
      let all = counted inv done.0 in
      (final.0, final.1, done.1, ap w64 shown.0 ∙ all.0, ap w64 shown.1 ∙ all.1)

  -- What a callback has been given by the time when a call of Close is about to return.
  pub Reach-logged :
      {n : ℕ} {w : Conn W} {s : System W}
      → Fresh W w
      → w.report_stats ≡ true
      → Reach W n w s
      → (i : ℕ) (e : Option W.Err) → s.pc i ≡ returned e
      → (snap : Conn W) × (s.mem.log ≡ (snap, closed_state) ∷ [])
        × (w64 snap.rx_bytes ≡ w64 s.mem.rx_total)
        × (w64 snap.tx_bytes ≡ w64 s.mem.tx_total)
  Reach-logged {s = s} f b r i e at =
      let (snap, h, shows) = subst (λ x. LoggedIf W x s.mem) b (Reach-returned f r i e at).3 in
      let member = subst (λ l. Memᴰ (snap, closed_state) l) (sym h) (Memᴰ.head refl) in
      let all = Reach-reports f r snap closed_state member in (snap, h, all.3, all.4)
