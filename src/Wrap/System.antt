-- ===== src/Wrap/System.antt =====
-- Any number of goroutines that share one wrapped connection. Each section under the mutex is one
-- step; what the underlying connection answers, the clock and the scheduler are left open.
use conniver.Prelude.{
  ℕ, ◌+◌, ◌<◌, ◌≡◌, ℤ, Bool, true, false, Option, some, ok, err, List, [], ◌∷◌, ◌++◌,
}
use conniver.Prelude.Threads.{write_at}
use conniver.Wrap.World.{World}
use conniver.Wrap.Conn.{
  closed, Conn, closed_state, begin_io, finish_io, set_reconnects, record_read, record_write,
}
use conniver.Wrap.Report.{Collect, Collected, Call, collect_tcp_info}
use conniver.Wrap.Close.{
  join, refused, proceed, close_enter, close_take, close_settle, close_channel,
}

module _ (W : World) where
  open W use {Sock, Err}

  -- The connection, the calls of the report callback so far, and what the underlying connection has
  -- done: the bytes that its Read and Write have returned, and what each call of its Close has
  -- returned, in their order.
  pub record Shared : Type 0 where
    pub w : Conn W
    pub log : List (Call W)
    pub rx_total : ℕ
    pub tx_total : ℕ
    pub closes : List (Option Err)

  -- Where a goroutine stands in a call, with its live locals.
  pub data Pc : Type 0 where
    idle : Pc
    reading : Sock → Pc  -- in the underlying Read
    got : ℕ → Option Err → Pc  -- it has returned, before the section that records it
    writing : Sock → Pc
    sent : ℕ → Option Err → Pc
    finishing : Pc  -- before finishIO
    entered : Sock → Pc  -- Close after its first section
    taking : Option Err → Collected W → Pc  -- the underlying Close has returned
    asleep : Option Err → Collected W → Pc  -- in ioDrained.Wait
    awake : Option Err → Collected W → Pc  -- woken, before it has the mutex again
    reporting : Option Err → Conn W → Pc  -- before the callback, with the snapshot
    releasing : Option Err → Pc  -- before close(done)
    joining : Pc  -- another Close, in <-done
    rejoining : Pc  -- after it
    returned : Option Err → Pc  -- Close is about to return this

  abbrev settled : Shared → Conn W → Collected W → Shared × Conn W
  settled m w (info, info_err) =
      let (w', snap) = close_settle W info info_err w in (record m { w = w' }, snap)

  abbrev pub call_report : Bool → Conn W → List (Call W)
  call_report false snap = []
  call_report true snap = (snap, closed_state) ∷ []

  -- One step of one goroutine. The last index says whether it broadcasts.
  pub data Move (m : Shared) : Pc → Shared → Pc → Bool → Type 0 where
    begin_read :
        {sock : Sock}
        → (begin_io W m.w).1 ≡ ok sock
        → Move m idle (record m { w = (begin_io W m.w).0 }) (reading sock) false
    begin_write :
        {sock : Sock}
        → (begin_io W m.w).1 ≡ ok sock
        → Move m idle (record m { w = (begin_io W m.w).0 }) (writing sock) false
    begin_refused :
        {e : Err}
        → (begin_io W m.w).1 ≡ err e
        → Move m idle (record m { w = (begin_io W m.w).0 }) idle false
    read_returns :
        {sock : Sock} (n : ℕ) (e : Option Err)
        → Move m (reading sock) (record m { rx_total = m.rx_total + n }) (got n e) false
    write_returns :
        {sock : Sock} (n : ℕ) (e : Option Err)
        → Move m (writing sock) (record m { tx_total = m.tx_total + n }) (sent n e) false
    read_recorded :
        {n : ℕ} {e : Option Err} (ts : ℕ)
        → Move m (got n e) (record m { w = record_read W ts n e m.w }) finishing false
    write_recorded :
        {n : ℕ} {e : Option Err} (ts : ℕ)
        → Move m (sent n e) (record m { w = record_write W ts n e m.w }) finishing false
    finish : Move m finishing (record m { w = (finish_io W m.w).0 }) idle (finish_io W m.w).1
    reconnect : (r : ℤ) → Move m idle (record m { w = set_reconnects W r m.w }) idle false
    enter :
        (ts : ℕ) {sock : Sock}
        → (close_enter W ts m.w).1 ≡ proceed sock
        → Move m idle (record m { w = (close_enter W ts m.w).0 }) (entered sock) false
    enter_join :
        (ts : ℕ)
        → (close_enter W ts m.w).1 ≡ join
        → Move m idle (record m { w = (close_enter W ts m.w).0 }) joining false
    enter_refused :
        (ts : ℕ) {e : Err}
        → (close_enter W ts m.w).1 ≡ refused e
        → Move m idle (record m { w = (close_enter W ts m.w).0 }) (returned (some e)) false
    close_returns :
        {sock : Sock} (c : Collect W) (e : Option Err)
        → Move m
            (entered sock)
            (record m { closes = m.closes ++ e ∷ [] })
            (taking e (collect_tcp_info W m.w c))
            false
    take_wait :
        {e : Option Err} {i : Collected W}
        → 0 < m.w.in_flight
        → Move m (taking e i) (record m { w = close_take W e m.w }) (asleep e i) false
    take_settle :
        {e : Option Err} {i : Collected W}
        → m.w.in_flight ≡ 0
        → Move m
            (taking e i)
            (settled m (close_take W e m.w) i).0
            (reporting e (settled m (close_take W e m.w) i).1)
            false
    wake_wait :
        {e : Option Err} {i : Collected W}
        → 0 < m.w.in_flight
        → Move m (awake e i) m (asleep e i) false
    wake_settle :
        {e : Option Err} {i : Collected W}
        → m.w.in_flight ≡ 0
        → Move m (awake e i) (settled m m.w i).0 (reporting e (settled m m.w i).1) false
    report :
        {e : Option Err} {snap : Conn W}
        → Move m
            (reporting e snap)
            (record m { log = m.log ++ call_report m.w.report_stats snap })
            (releasing e)
            false
    release :
        {e : Option Err}
        → Move m (releasing e) (record m { w = close_channel W m.w }) (returned e) false
    receive : m.w.close_done ≡ closed → Move m joining m rejoining false
    rejoin : Move m rejoining m (returned m.w.close_err) false
    leave : {e : Option Err} → Move m (returned e) m idle false

  -- Broadcast wakes whoever sleeps.
  abbrev pub wake : Bool → Pc → Pc
  wake true (asleep e i) = awake e i
  wake _ p = p

  pub record System : Type 0 where
    pub mem : Shared
    pub pc : ℕ → Pc

  -- `n` goroutines; a number from `n` on names none.
  pub data Step (n : ℕ) (s : System) : System → Type 0 where
    pick :
        (i : ℕ) {m : Shared} {p : Pc} {b : Bool}
        → i < n
        → Move s.mem (s.pc i) m p b
        → Step n s (record { mem = m; pc = write_at (λ j. wake b (s.pc j)) i p })

  abbrev pub init : Conn W → System
  init w = record {
    mem = record { w = w; log = []; rx_total = 0; tx_total = 0; closes = [] };
    pc = λ _. idle;
  }

  pub data Reach (n : ℕ) (w : Conn W) : System → Type 0 where
    start : Reach n w (init w)
    later : {s t : System} → Reach n w s → Step n s t → Reach n w t

  -- Any number of steps.
  pub data Later (n : ℕ) (s : System) : System → Type 0 where
    now : Later n s s
    then : {t u : System} → Later n s t → Step n t u → Later n s u
