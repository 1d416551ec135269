-- ===== src/Wrap/Report.antt =====
-- Collecting tcpinfo, snapshots, warnings and the map of a connection, and the open-time report.
use conniver.Prelude.{
  ℕ, ◌-◌, ◌^◌, ℤ, pos, negsuc, ltb_ℤ, Bool, true, false, String, Option, none, some, List, [], ◌∷◌,
  ◌++◌, ltb, if◌then◌else◌, is_some,
}
use conniver.Prelude.Text.{Text, codes}
use conniver.Prelude.Decimal.{decimal_ℤ}
use conniver.Prelude.Fields.{Value, num, int, texts, obj, Fields, end, Entry, always, put_all}
use conniver.TcpInfo.{Info, clone_info, info_to_map}
use conniver.Wrap.World.{World}
use conniver.Wrap.Conn.{
  absent, Conn, opened_state, apply_tcp_info_locked, local_addr_locked, remote_addr_locked,
}

module _ (W : World) where
  open W use {
    Ctx, Sock, Addr, Err, SysInfo, is_tcp, error_text, addr_text, local_addr_of, remote_addr_of,
    clone_sys, to_info, sys_warnings, sys_map,
  }

  -- What SyscallConn, Control and GetTCPInfo answer.
  pub record Collect : Type 0 where
    pub syscall_conn : Option Err
    pub control : Option Err
    pub answer : Option SysInfo × Option Err

  abbrev pub Collected : Type 0
  Collected = Option (Info SysInfo) × Option Err

  abbrev pub from_answer : Option SysInfo → Option Err → Collected
  from_answer none e = (none, e)
  from_answer (some s) e = (some (to_info s), e)

  abbrev from_control : Option Err → Collect → Collected
  from_control (some e) c = (none, some e)
  from_control none c = from_answer c.answer.0 c.answer.1

  abbrev from_raw : Option Err → Collect → Collected
  from_raw (some e) c = (none, some e)
  from_raw none c = from_control c.control c

  abbrev from_conn : Option Sock → Collect → Collected
  from_conn none c = (none, none)
  from_conn (some sock) c = if is_tcp sock then from_raw c.syscall_conn c else (none, none)

  unfoldable pub collect_tcp_info : Conn W → Collect → Collected
  collect_tcp_info w c = if w.supports_tcp_info then from_conn w.conn c else (none, none)

  -- Fields that the literal of snapshotLocked leaves out are zero.
  unfoldable pub snapshot_locked : Conn W → Conn W
  snapshot_locked w = record {
    conn = none;
    context = w.context;
    report_stats = false;
    opened_at = w.opened_at;
    closed_at = w.closed_at;
    first_rx_at = w.first_rx_at;
    first_tx_at = w.first_tx_at;
    last_rx_at = w.last_rx_at;
    last_tx_at = w.last_tx_at;
    tx_bytes = w.tx_bytes;
    rx_bytes = w.rx_bytes;
    rx_err = w.rx_err;
    tx_err = w.tx_err;
    info_err = w.info_err;
    reconnects = w.reconnects;
    opened_info = clone_info clone_sys w.opened_info;
    closed_info = clone_info clone_sys w.closed_info;
    supports_tcp_info = w.supports_tcp_info;
    close_started = w.close_started;
    close_done = absent;
    close_err = w.close_err;
    in_flight = 0;
    local_addr = local_addr_locked W w;
    remote_addr = remote_addr_locked W w;
    io_drained = false;
  }

  -- A call of the report callback: its connection and its state.
  abbrev pub Call : Type 0
  Call = Conn W × ℕ

  abbrev open_call : Bool → Conn W → List Call
  open_call false w = []
  open_call true w = (record (snapshot_locked w) { conn = w.conn }, opened_state) ∷ []

  -- reportState with the state Opened, the one state that the source passes.
  unfoldable pub report_opened : Option (Info SysInfo) → Option Err → Conn W → Conn W × List Call
  report_opened info info_err w =
      let w' = apply_tcp_info_locked W opened_state info info_err w in
      (w', open_call w'.report_stats w')

  -- A WrapOption, nil or a function on wrapOptions.
  abbrev pub WrapOption : Type 0
  WrapOption = Option (Bool → Bool)

  unfoldable pub with_emit_open_callback : Bool → WrapOption
  with_emit_open_callback enabled = some (λ _. enabled)

  unfoldable pub apply_options : List WrapOption → Bool → Bool
  apply_options [] emit = emit
  apply_options (none ∷ opts) emit = apply_options opts emit
  apply_options (some o ∷ opts) emit = apply_options opts (o emit)

  abbrev addr_of : Option Sock → (Sock → Option Addr) → Option Addr
  addr_of none f = none
  addr_of (some s) f = f s

  -- The literal of WrapConnWithContext, with the addresses and the condition variable.
  unfoldable pub new_conn : Ctx → Option Sock → Bool → ℕ → Bool → Conn W
  new_conn ctx ncon report now supported = record {
    conn = ncon;
    context = ctx;
    report_stats = report;
    opened_at = now;
    closed_at = 0;
    first_rx_at = 0;
    first_tx_at = 0;
    last_rx_at = 0;
    last_tx_at = 0;
    tx_bytes = 0;
    rx_bytes = 0;
    rx_err = none;
    tx_err = none;
    info_err = none;
    reconnects = pos 0;
    opened_info = none;
    closed_info = none;
    supports_tcp_info = supported;
    close_started = false;
    close_done = absent;
    close_err = none;
    in_flight = 0;
    local_addr = addr_of ncon local_addr_of;
    remote_addr = addr_of ncon remote_addr_of;
    io_drained = true;
  }

  -- The new connection and the calls of the callback. `now` is the clock, `supported` what
  -- tcpinfo.Supported answers.
  unfoldable pub wrap_conn_with_context :
      Ctx → Option Sock → Bool → List WrapOption → ℕ → Bool → Collect → Conn W × List Call
  unfolding new_conn collect_tcp_info report_opened apply_options
  wrap_conn_with_context ctx ncon report opts now supported c =
      let w = new_conn ctx ncon report now supported in
      let (info, info_err) = collect_tcp_info w c in
      if apply_options opts false
      then report_opened info info_err w
      else (apply_tcp_info_locked W opened_state info info_err w, [])

  -- WrapConn, in the background context
  unfoldable pub wrap_conn :
      Ctx → Option Sock → Bool → List WrapOption → ℕ → Bool → Collect → Conn W × List Call
  unfolding wrap_conn_with_context
  wrap_conn background ncon report opts now supported c =
      wrap_conn_with_context background ncon report opts now supported c

  -- int64(n) of a uint64
  abbrev signed64 : ℕ → ℤ
  signed64 n = if ltb n (2 ^ 63) then pos n else negsuc (2 ^ 64 - n - 1)

  abbrev pub sys_part : Option SysInfo → List Text
  sys_part none = []
  sys_part (some s) = sys_warnings s

  abbrev pub info_warnings : Option (Info SysInfo) → List Text
  info_warnings none = []
  info_warnings (some i) =
      (if ltb 0 i.retransmits
        then (codes "retransmits=" ++ decimal_ℤ (signed64 i.retransmits)) ∷ []
        else [])
      ++ sys_part i.sys

  unfoldable pub warnings : Conn W → List Text
  warnings w =
      (if ltb_ℤ (pos 0) w.reconnects
        then (codes "reconnects=" ++ decimal_ℤ w.reconnects) ∷ []
        else [])
      ++ (info_warnings w.opened_info ++ info_warnings w.closed_info)

  abbrev pub addr_string : Option Addr → Text → Text
  addr_string none fallback = fallback
  addr_string (some a) fallback = addr_text a

  unfoldable pub local_addr_string : Conn W → Text
  local_addr_string w = addr_string (local_addr_locked W w) (codes "unknown")

  unfoldable pub remote_addr_string : Conn W → Text
  remote_addr_string w = addr_string (remote_addr_locked W w) (codes "unknown")

  abbrev err_value : Option Err → Value
  err_value none = num 0
  err_value (some e) = Value.text (error_text e)

  abbrev info_value : Option (Info SysInfo) → Value
  info_value none = num 0
  info_value (some i) = obj (info_to_map sys_map i)

  -- if e != nil { fset[k] = e.Error() }
  abbrev pub err_entry : String → Option Err → Entry
  err_entry k e = record { key = k; valid = is_some e; value = err_value e }

  abbrev pub info_entry : String → Option (Info SysInfo) → Entry
  info_entry k i = record { key = k; valid = is_some i; value = info_value i }

  abbrev pub conn_entries : Conn W → List Entry
  conn_entries w =
      always "openedAt" (num w.opened_at)
      ∷ always "closedAt" (num w.closed_at)
      ∷ always "firstRxAt" (num w.first_rx_at)
      ∷ always "firstTxAt" (num w.first_tx_at)
      ∷ always "lastRxAt" (num w.last_rx_at)
      ∷ always "lastTxAt" (num w.last_tx_at)
      ∷ always "txBytes" (num w.tx_bytes)
      ∷ always "rxBytes" (num w.rx_bytes)
      ∷ always "reconnects" (int w.reconnects)
      ∷ always "localAddr" (Value.text (addr_string (local_addr_locked W w) []))
      ∷ always "remoteAddr" (Value.text (addr_string (remote_addr_locked W w) []))
      ∷ always "warnings" (texts (warnings w))
      ∷ err_entry "rxErr" w.rx_err
      ∷ err_entry "txErr" w.tx_err
      ∷ err_entry "infoErr" w.info_err
      ∷ info_entry "openedInfo" w.opened_info
      ∷ info_entry "closedInfo" w.closed_info
      ∷ []

  unfoldable pub to_map : Conn W → Fields
  to_map w = put_all (conn_entries w) end
