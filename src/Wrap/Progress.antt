-- ===== src/Wrap/Progress.antt =====
-- No goroutine is stuck for ever in Read, Write or Close.
use conniver.Prelude.{
  ℕ, ◌<◌, ◌≡◌, ◌≢◌, refl, sym, ◌∙◌, ap, ◌⊎◌, inl, inr, Bool, true, false, none, arith, Bool-cases,
  Option-cases,
}
use mathlib.Core.Path.{subst}
use mathlib.Core.Bool.{false≢true}
use mathlib.Core.Logic.{if_pos, if_neg}
use native.Mathlib.Decide.{ℕ_discrete}
use conniver.Prelude.Threads.{write_at}
use conniver.Wrap.World.{World}
use conniver.Wrap.Conn.{
  Done, absent, pending, closed, is_set, Conn, begin_io, finish_io, record_read, record_write,
  set_reconnects,
}
use conniver.Wrap.Report.{Collect}
use conniver.Wrap.Close.{proceed, close_enter, close_channel}
use conniver.Wrap.System.{
  Shared, Pc, idle, reading, got, writing, sent, finishing, entered, taking, asleep, awake,
  reporting, releasing, joining, rejoining, returned, enter, enter_join, enter_refused,
  close_returns, take_wait, take_settle, wake_wait, wake_settle, report, release, receive, rejoin,
  leave, finish, read_returns, write_returns, read_recorded, write_recorded, Move, wake, System,
  Step, pick, Reach, start, later,
}
use conniver.Wrap.Invariant.{holds, is_closer, Fact}
use conniver.Wrap.Invariant.Step.{Fresh, Reach-Inv}
use conniver.Wrap.Safety.{Reach-sleeps}

module _ (W : World) where
  -- While the channel is open, some goroutine is the closing one.
  IsTended : ℕ → Shared W → (ℕ → Pc W) → Type 0
  IsTended n m pc = m.w.close_done ≡ pending → (j : ℕ) × (j < n) × (is_closer W (pc j) ≡ true)

  closer-stays :
      {m m' : Shared W} {p p' : Pc W} {b : Bool}
      → Move W m p m' p' b
      → is_closer W p ≡ true
      → (is_closer W p' ≡ true) ⊎ (m'.w.close_done ≡ closed)
  unfolding close_channel
  closer-stays release c = inr refl
  closer-stays (close_returns c' e) c = inl refl
  closer-stays (take_wait h) c = inl refl
  closer-stays (take_settle h) c = inl refl
  closer-stays (wake_wait h) c = inl refl
  closer-stays (wake_settle h) c = inl refl
  closer-stays report c = inl refl
  closer-stays mv c = cc

  -- Close leaves the channel as it is unless it goes on.
  enter-same :
      (ts : ℕ) (w : Conn W)
      → ((close_enter W ts w).0.close_done ≡ w.close_done)
        ⊎ ((sock : W.Sock) × ((close_enter W ts w).1 ≡ proceed sock))
  unfolding close_enter
  enter-same ts w = elim (Bool-cases (is_set w.close_done)) [
    | inl e ↦ inl (rw e refl)
    | inr e ↦ elim (Option-cases w.conn) [
      | inl q ↦ inl (rw (e, q) refl)
      | inr (sock, q) ↦ inr (sock, rw (e, q) refl)
    ]
  ]

  done-stays :
      {m m' : Shared W} {p p' : Pc W} {b : Bool}
      → Move W m p m' p' b
      → is_closer W p ≡ false
      → (is_closer W p' ≡ true) ⊎ (m'.w.close_done ≡ m.w.close_done)
  unfolding begin_io finish_io record_read record_write set_reconnects
  done-stays (enter ts h) c = inl refl
  done-stays {m} (enter_join ts h) c = elim (enter-same ts m.w) [
    | inl e ↦ inr e
    | inr (sock, q) ↦ cc
  ]
  done-stays {m} (enter_refused ts h) c = elim (enter-same ts m.w) [
    | inl e ↦ inr e
    | inr (sock, q) ↦ cc
  ]
  done-stays mv c = ground arith

  closer-woken : (b : Bool) (q : Pc W) → is_closer W q ≡ true → is_closer W (wake W b q) ≡ true
  closer-woken true (asleep e i) h = refl
  closer-woken false q h = h
  closer-woken true _ h = h

  module _ (n : ℕ) (pc : ℕ → Pc W) (i : ℕ) (p' : Pc W) (b : Bool) where
    moved : ℕ → Pc W
    moved = write_at (λ j. wake W b (pc j)) i p'

    own : i < n → is_closer W p' ≡ true → (j : ℕ) × (j < n) × (is_closer W (moved j) ≡ true)
    unfolding moved
    own lt c = (i, lt, rw (if_pos _ refl) c)

    others :
        (j : ℕ)
        → j < n
        → i ≢ j
        → is_closer W (pc j) ≡ true
        → (k : ℕ) × (k < n) × (is_closer W (moved k) ≡ true)
    unfolding moved
    others j lt ne c = (j, lt, rw (if_neg _ ne) (closer-woken b (pc j) c))

  Step-IsTended :
      {n : ℕ} {s t : System W} → Step W n s t → IsTended n s.mem s.pc → IsTended n t.mem t.pc
  unfolding IsTended moved
  Step-IsTended {n} {s} (pick i {m} {p} {b} lt mv) tended pend =
      elim (Bool-cases (is_closer W (s.pc i))) [
        | inl c ↦ elim (closer-stays mv c) [
          | inl c' ↦ own n s.pc i p b lt c'
          | inr e ↦ absurd (ground (arith, pend, e))
        ]
        | inr nc ↦ elim (done-stays mv nc) [
          | inl c' ↦ own n s.pc i p b lt c'
          | inr e ↦
              let (j, jlt, c) = tended (sym e ∙ pend) in
              others n s.pc i p b j jlt
                (λ q. absurd (false≢true (sym nc ∙ (ap (λ k. is_closer W (s.pc k)) q ∙ c)))) c
        ]
      ]

  Reach-IsTended :
      {n : ℕ} {w : Conn W} {s : System W} → Fresh W w → Reach W n w s → IsTended n s.mem s.pc
  unfolding IsTended
  Reach-IsTended f start pend = absurd (ground (arith, f.no_close))
  Reach-IsTended f (later r st) pend = Step-IsTended st (Reach-IsTended f r) pend

  -- The goroutine can take a step.
  abbrev pub Movable : Shared W → Pc W → Type 0
  Movable m p = (m' : Shared W) × (p' : Pc W) × (b : Bool) × Move W m p m' p' b

  -- In a call, and waiting for no other goroutine.
  abbrev pub is_running : Pc W → Bool
  is_running idle = false
  is_running joining = false
  is_running (asleep e i) = false
  is_running _ = true

  no_answer : Collect W
  no_answer = record { syscall_conn = none; control = none; answer = (none, none) }

  running-moves : (m : Shared W) (p : Pc W) → is_running p ≡ true → Movable m p
  running-moves m (reading s) h = (_, _, _, read_returns 0 none)
  running-moves m (writing s) h = (_, _, _, write_returns 0 none)
  running-moves m (got k e) h = (_, _, _, read_recorded 0)
  running-moves m (sent k e) h = (_, _, _, write_recorded 0)
  running-moves m finishing h = (_, _, _, finish)
  running-moves m (entered s) h = (_, _, _, close_returns no_answer none)
  running-moves m (taking e i) h = elim (ℕ_discrete m.w.in_flight 0) [
    | yes q ↦ (_, _, _, take_settle q)
    | no nq ↦ (_, _, _, take_wait (omega (arith, nq)))
  ]
  running-moves m (awake e i) h = elim (ℕ_discrete m.w.in_flight 0) [
    | yes q ↦ (_, _, _, wake_settle q)
    | no nq ↦ (_, _, _, wake_wait (omega (arith, nq)))
  ]
  running-moves m (reporting e snap) h = (_, _, _, report)
  running-moves m (releasing e) h = (_, _, _, release)
  running-moves m rejoining h = (_, _, _, rejoin)
  running-moves m (returned e) h = (_, _, _, leave)
  running-moves m idle h = cc
  running-moves m joining h = cc
  running-moves m (asleep e i) h = cc

  holder-runs : (p : Pc W) → 0 < holds W p → is_running p ≡ true
  holder-runs (reading s) h = refl
  holder-runs (writing s) h = refl
  holder-runs (got k e) h = refl
  holder-runs (sent k e) h = refl
  holder-runs finishing h = refl
  holder-runs _ h = absurd (omega arith)

  -- In a call of Read, Write or Close.
  abbrev pub in_call : Pc W → Bool
  in_call idle = false
  in_call _ = true

  running-in_call : (p : Pc W) → is_running p ≡ true → in_call p ≡ true
  running-in_call idle h = h
  running-in_call _ h = refl

  -- Some goroutine that is in a call can take a step.
  abbrev pub SomeMoves : ℕ → System W → Type 0
  SomeMoves n s = (j : ℕ) × (j < n) × (in_call (s.pc j) ≡ true) × Movable s.mem (s.pc j)

  runs : {n : ℕ} (s : System W) (j : ℕ) → j < n → is_running (s.pc j) ≡ true → SomeMoves n s
  runs s j lt h = (j, lt, running-in_call (s.pc j) h, running-moves s.mem (s.pc j) h)

  module _ {n : ℕ} {w : Conn W} (s : System W) (f : Fresh W w) (r : Reach W n w s) where
    sleeper-waits : (i : ℕ) (p : Pc W) → s.pc i ≡ p → i < n → is_closer W p ≡ true → SomeMoves n s
    sleeper-waits i (asleep e info) q lt c =
        let (j, jlt, h) = Reach-sleeps W f r i q in runs s j jlt (holder-runs (s.pc j) h)
    sleeper-waits i (entered x) q lt c = runs s i lt (ap is_running q)
    sleeper-waits i (taking e x) q lt c = runs s i lt (ap is_running q)
    sleeper-waits i (awake e x) q lt c = runs s i lt (ap is_running q)
    sleeper-waits i (reporting e x) q lt c = runs s i lt (ap is_running q)
    sleeper-waits i (releasing e) q lt c = runs s i lt (ap is_running q)
    sleeper-waits i _ q lt c = cc

    -- Who waits for the channel waits for the closing goroutine, or moves.
    joiner-waits :
        (d : Done) (i : ℕ) → s.mem.w.close_done ≡ d → is_set d ≡ true → (d ≡ closed) ⊎ SomeMoves n s
    unfolding IsTended
    joiner-waits absent i q h = cc
    joiner-waits closed i q h = inl refl
    joiner-waits pending i q h =
        let (j, lt, c) = Reach-IsTended f r q in inr (sleeper-waits j (s.pc j) refl lt c)

    join_moves : (i : ℕ) → s.pc i ≡ joining → i < n → s.mem.w.close_done ≡ closed → SomeMoves n s
    join_moves i q lt e =
        subst (λ p. (in_call p ≡ true) × Movable s.mem p → SomeMoves n s) q
          (λ (c, mv). (i, lt, c, mv)) (refl, (_, _, _, receive e))

    call-moves : (i : ℕ) (p : Pc W) → s.pc i ≡ p → i < n → in_call p ≡ true → SomeMoves n s
    call-moves i idle q lt h = cc
    call-moves i (asleep e info) q lt h = sleeper-waits i (asleep e info) q lt refl
    call-moves i joining q lt h =
        let fact : Fact W s.mem joining = subst (Fact W s.mem) q ((Reach-Inv W f r).facts i) in
        elim (joiner-waits s.mem.w.close_done i refl fact) [
          | inl e ↦ join_moves i q lt e
          | inr mv ↦ mv
        ]
    call-moves i _ q lt h = runs s i lt (ap is_running q)

  -- No deadlock: in every state that goroutines reach on a connection that has just been wrapped, if
  -- some goroutine is in a call of Read, Write or Close, then some goroutine that is in a call can
  -- take a step, whatever waits on the mutex, the condition variable or the channel.
  pub Reach-moves :
      {n : ℕ} {w : Conn W} {s : System W}
      → Fresh W w
      → Reach W n w s
      → (i : ℕ) → i < n
      → in_call (s.pc i) ≡ true
      → SomeMoves n s
  Reach-moves {s = s} f r i lt h = call-moves s f r i (s.pc i) refl lt h
