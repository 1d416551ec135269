-- ===== src/Wrap/Conn.antt =====
-- The state of a wrapped connection, and the sections of code that run under its mutex.
use conniver.Prelude.{
  ℕ, ◌+◌, ◌-◌, ℤ, Bool, true, false, not, ◌&&◌, ◌||◌, Option, none, some, Result, ok, err, ltb,
  ◌==◌, if◌then◌else◌, is_some, List, [], ◌∷◌,
}
use conniver.Prelude.Text.{Text, codes}
use conniver.Prelude.Words.{w64}
use conniver.TcpInfo.{Info}
use conniver.Wrap.World.{World}

-- The channel closeDone: nil, open or closed.
pub data Done : Type 0 where
  absent pending closed : Done

abbrev pub is_set : Done → Bool
is_set absent = false
is_set pending = true
is_set closed = true

abbrev pub opened_state : ℕ
opened_state = 0

abbrev pub closed_state : ℕ
closed_state = 1

-- StateMap
unfoldable pub state_map : List (ℕ × Text)
state_map = (opened_state, codes "open") ∷ (closed_state, codes "close") ∷ []

module _ (W : World) where
  open W use {Ctx, Sock, Addr, Err, SysInfo, err_closed, timeout, local_addr_of, remote_addr_of}

  -- Timestamps and byte counts are int64 bit patterns. `report_stats` and `io_drained` say that the
  -- pointer is not nil. `inFlight` is never negative outside its sections: finish_io writes the
  -- clamp out.
  pub record Conn : Type 0 where
    pub conn : Option Sock
    pub context : Ctx
    pub report_stats : Bool
    pub opened_at : ℕ
    pub closed_at : ℕ
    pub first_rx_at : ℕ
    pub first_tx_at : ℕ
    pub last_rx_at : ℕ
    pub last_tx_at : ℕ
    pub tx_bytes : ℕ
    pub rx_bytes : ℕ
    pub rx_err : Option Err
    pub tx_err : Option Err
    pub info_err : Option Err
    pub reconnects : ℤ
    pub opened_info : Option (Info SysInfo)
    pub closed_info : Option (Info SysInfo)
    pub supports_tcp_info : Bool
    pub close_started : Bool
    pub close_done : Done
    pub close_err : Option Err
    pub in_flight : ℕ
    pub local_addr : Option Addr
    pub remote_addr : Option Addr
    pub io_drained : Bool

  -- `a` unless it is nil
  abbrev or_else {ℓ} : {A : Type ℓ} → Option A → Option A → Option A
  or_else none b = b
  or_else (some a) b = some a

  abbrev and_then : Option Sock → (Sock → Option Addr) → Option Addr
  and_then none f = none
  and_then (some s) f = f s

  unfoldable pub local_addr_locked : Conn → Option Addr
  local_addr_locked w = or_else w.local_addr (and_then w.conn local_addr_of)

  unfoldable pub remote_addr_locked : Conn → Option Addr
  remote_addr_locked w = or_else w.remote_addr (and_then w.conn remote_addr_of)

  -- A nil info leaves the stored one.
  unfoldable pub apply_tcp_info_locked : ℕ → Option (Info SysInfo) → Option Err → Conn → Conn
  apply_tcp_info_locked state info info_err w = record w {
    opened_info = if state == opened_state then or_else info w.opened_info else w.opened_info;
    closed_info = if state == opened_state then w.closed_info else or_else info w.closed_info;
    info_err = if is_some info || is_some info_err then info_err else w.info_err;
  }

  abbrev begin_open : Option Sock → Conn → Conn × Result Err Sock
  begin_open none w = (w, err err_closed)
  begin_open (some sock) w = (record w { in_flight = w.in_flight + 1 }, ok sock)

  -- `if w.closeStarted || w.Conn == nil { return nil, net.ErrClosed }`
  unfoldable pub begin_io : Conn → Conn × Result Err Sock
  begin_io w = if w.close_started then (w, err err_closed) else begin_open w.conn w

  -- The new state, and whether the condition variable is broadcast. From 0 the decrement gives -1,
  -- which is no broadcast and is set back to 0.
  unfoldable pub finish_io : Conn → Conn × Bool
  finish_io w =
      if w.in_flight == 0
      then (w, false)
      else (record w { in_flight = w.in_flight - 1 }, w.close_started && w.in_flight == 1)

  -- withLiveConn up to the call of its argument, and then with it.
  unfoldable pub live_conn : Conn → Result Err Sock
  live_conn w = elim (if w.close_started then none else w.conn) [
    | some sock ↦ ok sock
    | none ↦ elim w.close_err [ some e ↦ err e | none ↦ err err_closed ]
  ]

  unfoldable pub with_live_conn : (Sock → Option Err) → Conn → Option Err
  unfolding live_conn
  with_live_conn fn w = elim (live_conn w) [ ok sock ↦ fn sock | err e ↦ some e ]

  -- SetDeadline, SetReadDeadline and SetWriteDeadline, with the method of the connection.
  unfoldable pub set_deadline : (Sock → ℕ → Option Err) → ℕ → Conn → Option Err
  unfolding with_live_conn
  set_deadline set t w = with_live_conn (λ sock. set sock t) w

  -- LocalAddr and RemoteAddr
  unfoldable pub local_addr_of_conn : Conn → Option Addr
  unfolding local_addr_locked
  local_addr_of_conn w = local_addr_locked w

  unfoldable pub remote_addr_of_conn : Conn → Option Addr
  unfolding remote_addr_locked
  remote_addr_of_conn w = remote_addr_locked w

  unfoldable pub set_reconnects : ℤ → Conn → Conn
  set_reconnects r w = record w { reconnects = r }

  -- `if err, ok := err.(net.Error); ok && !err.Timeout()`
  abbrev is_reported : Option Err → Bool
  is_reported none = false
  is_reported (some e) = elim (timeout e) [ none ↦ false | some t ↦ not t ]

  abbrev keep_err : Option Err → Option Err → Option Err
  keep_err e old = if is_reported e then e else old

  -- A transfer counts for the timestamps if it had no error and moved a byte.
  abbrev moved : ℕ → Option Err → Bool
  moved n e = not (is_some e) && ltb 0 n

  -- The section of Read after the underlying Read has returned `n` and `e`, at the time `ts`.
  unfoldable pub record_read : ℕ → ℕ → Option Err → Conn → Conn
  record_read ts n e w = record w {
    first_rx_at = if moved n e && w.first_rx_at == 0 then ts else w.first_rx_at;
    last_rx_at = if moved n e then ts else w.last_rx_at;
    rx_bytes = w64 (w.rx_bytes + n);
    rx_err = keep_err e w.rx_err;
  }

  -- The same of Write.
  unfoldable pub record_write : ℕ → ℕ → Option Err → Conn → Conn
  record_write ts n e w = record w {
    first_tx_at = if moved n e && w.first_tx_at == 0 then ts else w.first_tx_at;
    last_tx_at = if moved n e then ts else w.last_tx_at;
    tx_bytes = w64 (w.tx_bytes + n);
    tx_err = keep_err e w.tx_err;
  }
