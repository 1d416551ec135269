-- ===== src/Wrap/Termination.antt =====
-- Calls end: as long as no new call begins, there are only so many steps, and they lead to a state in
-- which every call has returned.
use conniver.Prelude.{
  ℕ, zero, suc, ◌+◌, ◌*◌, ◌<◌, ◌≤◌, ◌≡◌, refl, ap, ◌⊎◌, inl, inr, Bool, true, false, not, ◌&&◌,
  arith, Bool-cases,
}
use conniver.Prelude.Threads.{
  write_at, sum_below, sum_below-write_at, sum_below_mono, sum_below-le-mul,
}
use conniver.Wrap.World.{World}
use conniver.Wrap.Conn.{Conn}
use conniver.Wrap.System.{
  Shared, Pc, idle, reading, got, writing, sent, finishing, entered, taking, asleep, awake,
  reporting, releasing, joining, rejoining, returned, wake_wait, Move, wake, System, pick, Reach,
  later,
}
use conniver.Wrap.Invariant.{Fact}
use conniver.Wrap.Invariant.Step.{Fresh, Reach-Inv}
use conniver.Wrap.Progress.{in_call, Reach-moves}

module _ (W : World) where
  -- The most steps that a call can still take.
  abbrev steps_left : Pc W → ℕ
  steps_left idle = 0
  steps_left (reading _) = 3
  steps_left (got _ _) = 2
  steps_left (writing _) = 3
  steps_left (sent _ _) = 2
  steps_left finishing = 1
  steps_left (entered _) = 8
  steps_left (taking _ _) = 7
  steps_left (asleep _ _) = 6
  steps_left (awake _ _) = 5
  steps_left (reporting _ _) = 4
  steps_left (releasing _) = 2
  steps_left joining = 3
  steps_left rejoining = 2
  steps_left (returned _) = 1

  steps_left-le : (p : Pc W) → steps_left p ≤ 8
  steps_left-le p = ground arith

  steps_left-wake : (b : Bool) (p : Pc W) → steps_left (wake W b p) ≤ steps_left p
  steps_left-wake true (asleep e i) = omega arith
  steps_left-wake true p = ground arith
  steps_left-wake false p = omega arith

  -- Who sleeps does not move, so that its own broadcast is nothing to who moves.
  wake-mover :
      {m m' : Shared W} (p : Pc W) {p' : Pc W} {b : Bool}
      → Move W m p m' p' b
      → (c : Bool) → wake W c p ≡ p
  wake-mover (asleep e i) mv c = elim mv [ ]
  wake-mover _ mv true = refl
  wake-mover _ mv false = refl

  -- A woken Close finds nothing in flight: it does not sleep again.
  Move-fewer :
      {m m' : Shared W} {p p' : Pc W} {b : Bool}
      → Move W m p m' p' b
      → Fact W m p
      → in_call W p ≡ true
      → steps_left p' < steps_left p
  Move-fewer (wake_wait h) f c = absurd (omega (arith, f.4))
  Move-fewer mv f c = ground arith

  abbrev left : ℕ → System W → ℕ
  left n s = sum_below steps_left n s.pc

  Step-fewer :
      {n : ℕ} {m m' : Shared W} (pc : ℕ → Pc W) (i : ℕ) {p' : Pc W} {b : Bool}
      → i < n
      → Move W m (pc i) m' p' b
      → Fact W m (pc i)
      → in_call W (pc i) ≡ true
      → sum_below steps_left n (write_at (λ j. wake W b (pc j)) i p') < sum_below steps_left n pc
  Step-fewer {n} pc i {p'} {b} lt mv f c = omega (
    arith,
    sum_below-write_at steps_left n (λ j. wake W b (pc j)) i p' lt,
    sum_below_mono steps_left n (λ j. wake W b (pc j)) pc (λ j. steps_left-wake b (pc j)),
    ap steps_left (wake-mover (pc i) mv b),
    Move-fewer mv f c,
  )

  -- A number of steps of goroutines that are in a call: none begins one.
  pub data Onward (n : ℕ) (s : System W) : ℕ → System W → Type 0 where
    stay : Onward n s 0 s
    go :
        {k : ℕ} {t : System W}
        → Onward n s k t
        → (i : ℕ) {m : Shared W} {p : Pc W} {b : Bool} → i < n
        → in_call W (t.pc i) ≡ true
        → Move W t.mem (t.pc i) m p b
        → Onward n s (k + 1) (record { mem = m; pc = write_at (λ j. wake W b (t.pc j)) i p })

  onward :
      {n : ℕ} {w : Conn W} {s t : System W} {k : ℕ}
      → Fresh W w
      → Reach W n w s
      → Onward n s k t
      → Reach W n w t × (k + left n t ≤ left n s)
  onward f r stay = (r, omega arith)
  onward f r (go {t = t} o i lt c mv) =
      let (r', few) = onward f r o in
      (
        later r' (pick i lt mv),
        omega (arith, few, Step-fewer t.pc i lt mv ((Reach-Inv W f r').facts i) c),
      )

  -- Calls end: from every state that goroutines reach on a connection that has just been wrapped, in
  -- whatever order they run, goroutines that are in calls of Read, Write and Close take at most eight
  -- steps each, counted together, before a new call begins.
  pub Onward-bounded :
      {n : ℕ} {w : Conn W} {s t : System W} {k : ℕ}
      → Fresh W w
      → Reach W n w s
      → Onward n s k t
      → k ≤ 8 * n
  Onward-bounded {n} {s = s} f r o =
      omega (
        arith,
        (onward f r o).1,
        sum_below-le-mul steps_left 8 n s.pc (λ i. steps_left-le (s.pc i)),
      )

  -- No goroutine is in a call.
  abbrev pub is_quiet : ℕ → (ℕ → Pc W) → Bool
  is_quiet zero pc = true
  is_quiet (suc n) pc = not (in_call W (pc n)) && is_quiet n pc

  some_call :
      (n : ℕ) (pc : ℕ → Pc W)
      → ((i : ℕ) × (i < n) × (in_call W (pc i) ≡ true)) ⊎ (is_quiet n pc ≡ true)
  some_call zero pc = inr refl
  some_call (suc n) pc = elim (Bool-cases (in_call W (pc n))) [
    | inl e ↦ inl (n, omega arith, e)
    | inr e ↦ elim (some_call n pc) [
      | inl (i, lt, c) ↦ inl (i, omega arith, c)
      | inr h ↦ inr (rw (e, h) refl)
    ]
  ]

  drains :
      {n : ℕ} {w : Conn W} (fuel : ℕ) (s : System W) (k : ℕ) (t : System W)
      → Fresh W w
      → Reach W n w s
      → Onward n s k t
      → left n t < fuel
      → (k' : ℕ) × (u : System W) × Onward n s k' u × (is_quiet n u.pc ≡ true)
  drains zero s k t f r o h = absurd (omega arith)
  drains {n} (suc fuel) s k t f r o h = elim (some_call n t.pc) [
    | inr q ↦ (k, t, o, q)
    | inl (i, lt, c) ↦
        let r' = (onward f r o).0 in
        let (j, jlt, d, (m', p', b, mv)) = Reach-moves W f r' i lt c in
        drains fuel s (k + 1) _ f r (go o j jlt d mv)
          (omega (arith, Step-fewer t.pc j jlt mv ((Reach-Inv W f r').facts j) d))
  ]

  -- Every call returns: from every state that goroutines reach on a connection that has just been
  -- wrapped, goroutines that are in calls of Read, Write and Close can run on, with no new call, until
  -- every one of these calls has returned.
  pub Reach-drains :
      {n : ℕ} {w : Conn W} {s : System W}
      → Fresh W w
      → Reach W n w s
      → (k : ℕ) × (t : System W) × Onward n s k t × (is_quiet n t.pc ≡ true)
  Reach-drains {n} {s = s} f r = drains (left n s + 1) s 0 s f r stay (omega arith)
