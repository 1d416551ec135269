-- ===== src/Wrap/Invariant/Facts.antt =====
-- A move keeps the fact of every other goroutine, and establishes that of the one that moves.
use conniver.Prelude.{◌≡◌, refl, sym, ◌∙◌, Bool, true, false, arith}
use mathlib.Core.Path.{subst}
use conniver.Wrap.World.{World}
use conniver.Wrap.Conn.{pending, is_set, Conn}
use conniver.Wrap.System.{
  Shared, Pc, entered, taking, asleep, awake, reporting, releasing, joining, rejoining, returned,
  wake,
}
use conniver.Wrap.Invariant.Defs.{is_closer, Fact, Shows, Logged, LoggedIf}
use conniver.Wrap.Invariant.Kept.{SameShown, Kept}

module _ (W : World) where
  Shows-kept : (w w' : Conn W) (snap : Conn W) → SameShown W w w' → Shows W snap w → Shows W snap w'
  Shows-kept w w' snap same h = h ∙ sym (same snap.reconnects)

  LoggedIf-Kept :
      (r : Bool) (m m' : Shared W)
      → m'.log ≡ m.log
      → SameShown W m.w m'.w
      → LoggedIf W r m
      → LoggedIf W r m'
  LoggedIf-Kept false m m' e same h = e ∙ h
  LoggedIf-Kept true m m' e same (snap, h, s) = (snap, e ∙ h, Shows-kept m.w m'.w snap same s)

  pub Logged-kept :
      (m m' : Shared W)
      → m'.w.report_stats ≡ m.w.report_stats
      → m'.log ≡ m.log
      → SameShown W m.w m'.w
      → Logged W m
      → Logged W m'
  Logged-kept m m' r e same h =
      subst (λ b. LoggedIf W b m') (sym r) (LoggedIf-Kept m.w.report_stats m m' e same h)

  -- The facts that do not depend on the broadcast.
  Fact-same :
      (m m' : Shared W) (b : Bool)
      → Kept W m m' b
      → (q : Pc W) → wake W true q ≡ wake W false q
      → Fact W m q
      → Fact W m' q
  Fact-same m m' b k (entered s) h f = ground arith
  Fact-same m m' b k (taking e i) h f = ground arith
  Fact-same m m' b k (asleep e i) h f = cc
  Fact-same m m' b k (awake e i) h f =
      (k.done ∙ f.0, k.log ∙ f.1, k.closes ∙ f.2, k.close_err ∙ f.3, omega (arith, k.fewer, f.4))
  Fact-same m m' b k (reporting e snap) h f = (
    k.done ∙ f.0,
    k.log ∙ f.1,
    k.closes ∙ f.2,
    k.close_err ∙ f.3,
    omega (arith, k.fewer, f.4),
    Shows-kept m.w m'.w snap (k.shown f.4) f.5,
  )
  Fact-same m m' b k (releasing e) h f = (
    k.done ∙ f.0,
    k.closes ∙ f.1,
    k.close_err ∙ f.2,
    omega (arith, k.fewer, f.3),
    Logged-kept m m' k.report_stats k.log (k.shown f.3) f.4,
  )
  Fact-same m m' b k joining h f = ground arith
  Fact-same m m' b k rejoining h f = ground arith
  Fact-same m m' b k (returned e) h f = ground arith
  Fact-same m m' b k _ h f = tt

  pub Fact-Kept :
      (m m' : Shared W) (b : Bool)
      → Kept W m m' b
      → (q : Pc W) → Fact W m q
      → Fact W m' (wake W b q)
  Fact-Kept m m' true k (asleep e i) f =
      (k.done ∙ f.0, k.log ∙ f.1, k.closes ∙ f.2, k.close_err ∙ f.3, k.broadcast refl)
  Fact-Kept m m' false k (asleep e i) f =
      (k.done ∙ f.0, k.log ∙ f.1, k.closes ∙ f.2, k.close_err ∙ f.3, ground (arith, k.woken f.4))
  Fact-Kept m m' true k q f = Fact-same m m' true k q refl f
  Fact-Kept m m' false k q f = Fact-same m m' false k q refl f

  -- A closing goroutine finds the channel open.
  pub closer-pending :
      (m : Shared W) (p : Pc W) → is_closer W p ≡ true → Fact W m p → m.w.close_done ≡ pending
  closer-pending m (entered s) c f = f.0
  closer-pending m (taking e i) c f = f.0
  closer-pending m (asleep e i) c f = f.0
  closer-pending m (awake e i) c f = f.0
  closer-pending m (reporting e snap) c f = f.0
  closer-pending m (releasing e) c f = f.0
  closer-pending m _ c f = cc

  -- What is known of a goroutine other than the closing one needs a begun Close only.
  pub Fact-set :
      (m : Shared W) (q : Pc W)
      → is_set m.w.close_done ≡ false
      → Fact W m q
      → (m' : Shared W) (b : Bool) → Fact W m' (wake W b q)
  Fact-set m (entered s) h f m' b = absurd (ground arith)
  Fact-set m (taking e i) h f m' b = absurd (ground arith)
  Fact-set m (asleep e i) h f m' b = absurd (ground arith)
  Fact-set m (awake e i) h f m' b = absurd (ground arith)
  Fact-set m (reporting e snap) h f m' b = absurd (ground (arith, f.0))
  Fact-set m (releasing e) h f m' b = absurd (ground (arith, f.0))
  Fact-set m joining h f m' b = absurd (ground arith)
  Fact-set m rejoining h f m' b = absurd (ground arith)
  Fact-set m (returned e) h f m' b = absurd (ground arith)
  Fact-set m _ h f m' true = tt
  Fact-set m _ h f m' false = tt
