-- ===== src/Wrap/Close.antt =====
-- The sections of Close that run under the mutex, in order.
use conniver.Prelude.{ℕ, true, Option, none, some, if◌then◌else◌}
use conniver.TcpInfo.{Info}
use conniver.Wrap.World.{World}
use conniver.Wrap.Conn.{pending, closed, is_set, Conn, closed_state, apply_tcp_info_locked}
use conniver.Wrap.Report.{snapshot_locked}

module _ (W : World) where
  open W use {Sock, Err, SysInfo, err_closed}

  -- What the first section decides.
  pub data Entered : Type 0 where
    join : Entered  -- another Close runs or has run: wait for its channel
    refused : Err → Entered
    proceed : Sock → Entered

  abbrev pub refusal : Option Err → Err
  refusal none = err_closed
  refusal (some e) = e

  abbrev enter_with : ℕ → Option Sock → Conn W → Conn W × Entered
  enter_with ts none w = (w, refused (refusal w.close_err))
  enter_with ts (some sock) w =
      (record w { close_started = true; closed_at = ts; close_done = pending }, proceed sock)

  unfoldable pub close_enter : ℕ → Conn W → Conn W × Entered
  close_enter ts w = if is_set w.close_done then (w, join) else enter_with ts w.conn w

  -- w.closeErr = err; w.Conn = nil
  unfoldable pub close_take : Option Err → Conn W → Conn W
  close_take e w = record w { close_err = e; conn = none }

  -- What follows the loop that waits for `in_flight` to be 0: the new state and the snapshot.
  unfoldable pub close_settle : Option (Info SysInfo) → Option Err → Conn W → Conn W × Conn W
  close_settle info info_err w =
      let w' = apply_tcp_info_locked W closed_state info info_err w in (w', snapshot_locked W w')

  -- close(done)
  unfoldable pub close_channel : Conn W → Conn W
  close_channel w = record w { close_done = closed }
