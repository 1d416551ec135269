-- ===== src/Wrap/Invariant/Step.antt =====
-- Every step keeps the invariant, and it holds of a connection that has just been wrapped.
use conniver.Prelude.{
  ap, ℕ, ◌<◌, ◌≤◌, ◌≡◌, ◌≢◌, refl, sym, ◌∙◌, inl, inr, Bool, true, false, is_some, arith,
  Bool-cases,
}
use mathlib.Core.Path.{subst}
use mathlib.Core.Logic.{if_pos, if_neg}
use native.Mathlib.Decide.{ℕ_discrete}
use conniver.Prelude.Threads.{sum_below-zero}
use conniver.Wrap.World.{World}
use conniver.Wrap.Conn.{Done, absent, pending, closed, is_set, Conn}
use conniver.Wrap.System.{Shared, Pc, Move, wake, System, Step, pick, init, Reach, start, later}
use conniver.Wrap.Invariant.Defs.{holds, rx_pending, tx_pending, is_closer, PhaseOf, Fact, Inv}
use conniver.Wrap.Invariant.Counts.{moved_to, exchanged, Move-count, Move-rx, Move-tx, Move-started}
use conniver.Wrap.Invariant.Kept.{Kept, Move-Kept}
use conniver.Wrap.Invariant.Facts.{Fact-Kept, Fact-set, closer-pending}
use conniver.Wrap.Invariant.Own.{Move-own}
use conniver.Wrap.Invariant.Phase.{
  Phase-Kept, Phase-begun, Phase-closing, Fact-closing, closer-begins, steady_closer,
}

module _ (W : World) where
  absent_of : (d : Done) → is_set d ≡ false → d ≡ absent
  absent_of absent h = refl
  absent_of pending h = cc
  absent_of closed h = cc

  module _ {n : ℕ} {report : Bool} {m : Shared W} {pc : ℕ → Pc W} (inv : Inv W n report m pc) where
    -- The sum of the holders is what is in flight.
    within : (i : ℕ) → i < n → holds W (pc i) ≤ m.w.in_flight
    within i h = omega (arith, inv.count, (exchanged W n pc false i (pc i) h).here)

    module _ (i : ℕ) (lt : i < n) {m' : Shared W} {p' : Pc W} {b : Bool}
        (mv : Move W m (pc i) m' p' b) where
      kept : is_closer W (pc i) ≡ false → is_set m.w.close_done ≡ true → Kept W m m' b
      kept c s = Move-Kept W mv c (within i lt) (inv.started ∙ s) s

      phase' : PhaseOf W m'.w.close_done m'
      phase' = elim (Bool-cases (is_closer W (pc i))) [
        | inl c ↦ (Phase-closing W mv c (inv.facts i)).0
        | inr c ↦ elim (Bool-cases (is_set m.w.close_done)) [
          | inl s ↦ Phase-Kept W m m' b (kept c s) s inv.phase
          | inr s ↦
              let a = absent_of m.w.close_done s in
              Phase-begun W mv c (inv.facts i) a (subst (λ d. PhaseOf W d m) a inv.phase)
        ]
      ]

      other : (j : ℕ) → i ≢ j → Fact W m' (wake W b (pc j))
      other j ne = elim (Bool-cases (is_closer W (pc i))) [
        | inl c ↦ elim (Bool-cases (is_closer W (pc j))) [
          | inl d ↦ absurd (ne (inv.unique i j c d))
          | inr d ↦
              Fact-closing W m m' b (closer-pending W m (pc i) c (inv.facts i))
                (Phase-closing W mv c (inv.facts i)).1 (pc j) d (inv.facts j)
        ]
        | inr c ↦ elim (Bool-cases (is_set m.w.close_done)) [
          | inl s ↦ Fact-Kept W m m' b (kept c s) (pc j) (inv.facts j)
          | inr s ↦ Fact-set W m (pc j) s (inv.facts j) m' b
        ]
      ]

      facts' : (j : ℕ) → Fact W m' (moved_to W pc b i p' j)
      facts' j = elim (ℕ_discrete i j) [
        | yes e ↦ rw (if_pos _ e) (Move-own W inv.phase mv (inv.facts i))
        | no ne ↦ rw (if_neg _ ne) (other j ne)
      ]

      -- If the mover is closing after the move, no other goroutine is.
      alone : (j : ℕ) → is_closer W p' ≡ true → is_closer W (pc j) ≡ true → i ≡ j
      alone j c d = elim (closer-begins W mv c) [
        | inl was ↦ inv.unique i j was d
        | inr a ↦ let e = closer-pending W m (pc j) d (inv.facts j) in absurd (ground arith)
      ]

      was :
          (j : ℕ) → i ≢ j → is_closer W (moved_to W pc b i p' j) ≡ true → is_closer W (pc j) ≡ true
      was j ne h = sym (steady_closer W b (pc j)) ∙ rw (if_neg _ ne) at h

      mover : (j : ℕ) → i ≡ j → is_closer W (moved_to W pc b i p' j) ≡ true → is_closer W p' ≡ true
      mover j e h = rw (if_pos _ e) at h

      unique' :
          (j k : ℕ)
          → is_closer W (moved_to W pc b i p' j) ≡ true
          → is_closer W (moved_to W pc b i p' k) ≡ true
          → j ≡ k
      unique' j k hj hk = elim (ℕ_discrete i j) [
        | yes e ↦ elim (ℕ_discrete i k) [
          | yes f ↦ sym e ∙ f
          | no nf ↦ sym e ∙ alone k (mover j e hj) (was k nf hk)
        ]
        | no ne ↦ elim (ℕ_discrete i k) [
          | yes f ↦ sym (alone j (mover k f hk) (was j ne hj)) ∙ f
          | no nf ↦ inv.unique j k (was j ne hj) (was k nf hk)
        ]
      ]

      move-Inv : Inv W n report m' (moved_to W pc b i p')
      move-Inv =
          let x = exchanged W n pc b i p' lt in
          let s = Move-started W inv mv (inv.facts i) in
          record {
            count = Move-count W inv i mv x;
            rx = Move-rx W inv i mv x;
            tx = Move-tx W inv i mv x;
            started = s.0;
            callback = s.1;
            phase = phase';
            facts = facts';
            unique = unique';
          }

  -- Once the channel is closed, it and the error of Close stay as they are.
  closed-stays :
      {n : ℕ} {report : Bool} {m : Shared W} {pc : ℕ → Pc W} (inv : Inv W n report m pc) (i : ℕ)
      → i < n
      → {m' : Shared W} {p' : Pc W} {b : Bool} → Move W m (pc i) m' p' b
      → m.w.close_done ≡ closed
      → (m'.w.close_done ≡ closed) × (m'.w.close_err ≡ m.w.close_err)
  closed-stays {m = m} {pc} inv i lt mv e = elim (Bool-cases (is_closer W (pc i))) [
    | inl c ↦ absurd (ground (arith, e, closer-pending W m (pc i) c (inv.facts i)))
    | inr c ↦ let k = kept inv i lt mv c (ap is_set e) in (k.done ∙ e, k.close_err)
  ]

  pub Step-closed :
      {n : ℕ} {report : Bool} {s t : System W}
      → Step W n s t
      → Inv W n report s.mem s.pc
      → s.mem.w.close_done ≡ closed
      → (t.mem.w.close_done ≡ closed) × (t.mem.w.close_err ≡ s.mem.w.close_err)
  Step-closed (pick i lt mv) inv e = closed-stays inv i lt mv e

  -- Every step of any goroutine keeps the invariant.
  pub Step-Inv :
      {n : ℕ} {report : Bool} {s t : System W}
      → Step W n s t
      → Inv W n report s.mem s.pc
      → Inv W n report t.mem t.pc
  Step-Inv (pick i lt mv) inv = move-Inv inv i lt mv

  -- A connection that has just been wrapped.
  pub record Fresh (w : Conn W) : Type 0 where
    pub idle_io : w.in_flight ≡ 0
    pub no_rx : w.rx_bytes ≡ 0
    pub no_tx : w.tx_bytes ≡ 0
    pub not_started : w.close_started ≡ false
    pub no_close : w.close_done ≡ absent
    pub connected : is_some w.conn ≡ true

  init-Inv : (n : ℕ) (w : Conn W) → Fresh w → Inv W n w.report_stats (init W w).mem (init W w).pc
  init-Inv n w f = record {
    count = f.idle_io ∙ sym (sum_below-zero (holds W) n _ (λ _. refl));
    rx = ground (arith, f.no_rx, sum_below-zero (rx_pending W) n (init W w).pc (λ _. refl));
    tx = ground (arith, f.no_tx, sum_below-zero (tx_pending W) n (init W w).pc (λ _. refl));
    started = ground (arith, f.not_started, f.no_close);
    callback = refl;
    phase = subst (λ d. PhaseOf W d (init W w).mem) (sym f.no_close) (refl, refl, f.connected);
    facts = λ _. tt;
    unique = λ i j c d. cc;
  }

  pub Reach-Inv :
      {n : ℕ} {w : Conn W} {s : System W}
      → Fresh w
      → Reach W n w s
      → Inv W n w.report_stats s.mem s.pc
  Reach-Inv {n} {w} f start = init-Inv n w f
  Reach-Inv f (later r st) = Step-Inv st (Reach-Inv f r)
