-- ===== src/Wrap/Invariant/Phase.antt =====
-- A move keeps the phase, the facts of the other goroutines, and the closing one unique.
use conniver.Prelude.{◌≡◌, refl, sym, ◌∙◌, ap, ◌⊎◌, inl, inr, Bool, true, false, [], ◌∷◌, arith}
use mathlib.Core.Path.{subst}
use conniver.Wrap.World.{World}
use conniver.Wrap.Conn.{
  Done, absent, pending, closed, is_set, begin_io, finish_io, record_read, record_write,
  set_reconnects, apply_tcp_info_locked,
}
use conniver.Wrap.Close.{close_enter, close_take, close_settle, close_channel}
use conniver.Wrap.System.{
  Shared, Pc, entered, taking, asleep, awake, reporting, releasing, joining, rejoining, returned,
  begin_read, enter, close_returns, take_wait, take_settle, wake_wait, wake_settle, report, release,
  Move, wake,
}
use conniver.Wrap.Invariant.Defs.{is_closer, Before, Finished, PhaseOf, Fact}
use conniver.Wrap.Invariant.Kept.{Kept}
use conniver.Wrap.Invariant.Facts.{Logged-kept}
use conniver.Wrap.Invariant.Own.{SameShown-channel, LoggedIf-report}

module _ (W : World) where
  Finished-Kept : (m m' : Shared W) (b : Bool) → Kept W m m' b → Finished W m → Finished W m'
  Finished-Kept m m' b k h = (
    omega (arith, k.fewer, h.0),
    k.closes ∙ (h.1 ∙ ap (λ e. e ∷ []) (sym k.close_err)),
    Logged-kept W m m' k.report_stats k.log (k.shown h.0) h.2,
  )

  PhaseOf-Kept :
      (d : Done) (m m' : Shared W) (b : Bool)
      → Kept W m m' b
      → is_set d ≡ true
      → PhaseOf W d m
      → PhaseOf W d m'
  PhaseOf-Kept absent m m' b k s h = absurd (ground arith)
  PhaseOf-Kept pending m m' b k s (inl h) = inl (k.log ∙ h)
  PhaseOf-Kept pending m m' b k s (inr h) = inr (Finished-Kept m m' b k h)
  PhaseOf-Kept closed m m' b k s h = Finished-Kept m m' b k h

  pub Phase-Kept :
      (m m' : Shared W) (b : Bool)
      → Kept W m m' b
      → is_set m.w.close_done ≡ true
      → PhaseOf W m.w.close_done m
      → PhaseOf W m'.w.close_done m'
  Phase-Kept m m' b k s h =
      subst (λ d. PhaseOf W d m') (sym k.done) (PhaseOf-Kept m.w.close_done m m' b k s h)

  -- Before any Close a move keeps that phase or begins the Close.
  pub Phase-begun :
      {m m' : Shared W} {p p' : Pc W} {b : Bool}
      → Move W m p m' p' b
      → is_closer W p ≡ false
      → Fact W m p
      → m.w.close_done ≡ absent
      → Before W m
      → PhaseOf W m'.w.close_done m'
  unfolding begin_io finish_io record_read record_write set_reconnects close_enter
  Phase-begun (begin_read h) c f a k = ground arith
  Phase-begun mv c f a k = ground arith

  begun :
      (m : Shared W)
      → m.w.close_done ≡ pending
      → (m.log ≡ []) ⊎ Finished W m
      → PhaseOf W m.w.close_done m × (is_set m.w.close_done ≡ true)
  begun m e h = (subst (λ d. PhaseOf W d m) (sym e) h, ap is_set e)

  -- The closing goroutine leaves the Close begun, or ends it.
  pub Phase-closing :
      {m m' : Shared W} {p p' : Pc W} {b : Bool}
      → Move W m p m' p' b
      → is_closer W p ≡ true
      → Fact W m p
      → PhaseOf W m'.w.close_done m' × (is_set m'.w.close_done ≡ true)
  unfolding close_take close_settle close_channel apply_tcp_info_locked
  Phase-closing {m} release c f = (
    (
      f.3,
      f.1 ∙ ap (λ e. e ∷ []) (sym f.2),
      Logged-kept W m _ refl refl (SameShown-channel W m.w) f.4,
    ),
    refl,
  )
  Phase-closing (close_returns c' e) c f = begun _ f.0 (inl f.1)
  Phase-closing (take_wait h) c f = begun _ f.0 (inl f.1)
  Phase-closing (take_settle h) c f = begun _ f.0 (inl f.1)
  Phase-closing (wake_wait h) c f = begun _ f.0 (inl f.1)
  Phase-closing (wake_settle h) c f = begun _ f.0 (inl f.1)
  Phase-closing {m} (report {snap = snap}) c f = begun _ f.0 (
      inr
        (f.4, f.2 ∙ ap (λ e. e ∷ []) (sym f.3), LoggedIf-report W m.w.report_stats m snap f.1 f.5))
  Phase-closing mv c f = cc

  -- A goroutine that is not closing knows of the closing one only that it has begun.
  pub Fact-closing :
      (m m' : Shared W) (b : Bool)
      → m.w.close_done ≡ pending
      → is_set m'.w.close_done ≡ true
      → (q : Pc W) → is_closer W q ≡ false
      → Fact W m q
      → Fact W m' (wake W b q)
  Fact-closing m m' true d s joining c f = s
  Fact-closing m m' true d s rejoining c f = absurd (ground arith)
  Fact-closing m m' true d s (returned e) c f = absurd (ground (arith, f.0))
  Fact-closing m m' true d s (entered x) c f = cc
  Fact-closing m m' true d s (taking e i) c f = cc
  Fact-closing m m' true d s (asleep e i) c f = cc
  Fact-closing m m' true d s (awake e i) c f = cc
  Fact-closing m m' true d s (reporting e snap) c f = cc
  Fact-closing m m' true d s (releasing e) c f = cc
  Fact-closing m m' true d s _ c f = tt
  Fact-closing m m' false d s joining c f = s
  Fact-closing m m' false d s rejoining c f = absurd (ground arith)
  Fact-closing m m' false d s (returned e) c f = absurd (ground (arith, f.0))
  Fact-closing m m' false d s (entered x) c f = cc
  Fact-closing m m' false d s (taking e i) c f = cc
  Fact-closing m m' false d s (asleep e i) c f = cc
  Fact-closing m m' false d s (awake e i) c f = cc
  Fact-closing m m' false d s (reporting e snap) c f = cc
  Fact-closing m m' false d s (releasing e) c f = cc
  Fact-closing m m' false d s _ c f = tt

  -- Only a Close that finds no other one becomes the closing one.
  pub closer-begins :
      {m m' : Shared W} {p p' : Pc W} {b : Bool}
      → Move W m p m' p' b
      → is_closer W p' ≡ true
      → (is_closer W p ≡ true) ⊎ (m.w.close_done ≡ absent)
  unfolding close_enter
  closer-begins (enter ts h) c = ground arith
  closer-begins (close_returns c' e) c = inl refl
  closer-begins (take_wait h) c = inl refl
  closer-begins (take_settle h) c = inl refl
  closer-begins (wake_wait h) c = inl refl
  closer-begins (wake_settle h) c = inl refl
  closer-begins report c = inl refl
  closer-begins mv c = cc

  pub steady_closer : (b : Bool) (q : Pc W) → is_closer W (wake W b q) ≡ is_closer W q
  steady_closer false q = refl
  steady_closer true (asleep e i) = refl
  steady_closer true _ = refl
