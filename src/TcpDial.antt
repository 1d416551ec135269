-- ===== src/TcpDial.antt =====
-- pkg/tcpinfo/examples/tcpdial/main.go: one query of a connection that has just been dialed. Printing
-- and JSON are left out.
use conniver.Prelude.{
  ◌≡◌, Bool, true, false, not, ◌&&◌, Option, none, some, is_some, if◌then◌else◌, arith,
}
use conniver.TcpInfo.Linux.Versions.{Adapted}
use conniver.TcpInfo.Linux.Socket.{Socket, get_tcp_info}
use conniver.TcpInfo.Linux.Calls.{get_tcp_info-answers}

-- Why main panics.
pub data Panic (NetErr Err : Type 0) : Type 0 where
  net_error : NetErr → Panic NetErr Err
  info_error : Err → Panic NetErr Err
  not_tcp : Panic NetErr Err
  unavailable : Panic NetErr Err

pub data Outcome (Info NetErr Err : Type 0) : Type 0 where
  panics : Panic NetErr Err → Outcome Info NetErr Err
  exits : Outcome Info NetErr Err
  prints : Info → Outcome Info NetErr Err

-- What package net answers.
pub record Dial (NetErr : Type 0) : Type 0 where
  pub dial : Option NetErr
  pub is_tcp : Bool
  pub syscall_conn : Option NetErr
  pub control : Option NetErr

-- The connection is dialed, and its handle is given.
abbrev pub is_open : {NetErr : Type 0} → Dial NetErr → Bool
is_open d =
    not (is_some d.dial) && (d.is_tcp && (not (is_some d.syscall_conn) && not (is_some d.control)))

module _ {Info NetErr Err : Type 0} where
  abbrev of_answer : Option Info × Option Err → Outcome Info NetErr Err
  of_answer (info, some e) = panics (info_error e)
  of_answer (none, none) = panics unavailable
  of_answer (some info, none) = prints info

  abbrev of_control : Option NetErr → Option Info × Option Err → Outcome Info NetErr Err
  of_control (some e) answer = panics (net_error e)
  of_control none answer = of_answer answer

  abbrev of_syscall_conn :
      Option NetErr → Option NetErr → Option Info × Option Err → Outcome Info NetErr Err
  of_syscall_conn (some e) control answer = exits
  of_syscall_conn none control answer = of_control control answer

  abbrev of_dial : Option NetErr → Dial NetErr → Option Info × Option Err → Outcome Info NetErr Err
  of_dial (some e) d answer = panics (net_error e)
  of_dial none d answer =
      if d.is_tcp then of_syscall_conn d.syscall_conn d.control answer else panics not_tcp

  -- main, by what GetTCPInfo answers.
  unfoldable pub main : Dial NetErr → Option Info × Option Err → Outcome Info NetErr Err
  main d answer = of_dial d.dial d answer

  abbrev pub is_printed : Outcome Info NetErr Err → Bool
  is_printed (prints info) = true
  is_printed _ = false

  abbrev pub is_unavailable : Outcome Info NetErr Err → Bool
  is_unavailable (panics unavailable) = true
  is_unavailable _ = false

  main-answered :
      (d : Dial NetErr) (info : Option Info) (e : Option Err)
      → (is_printed (main d (info, e)) ≡ (is_open d && (is_some info && not (is_some e))))
        × (is_unavailable (main d (info, e))
            ≡ (is_open d && (not (is_some info) && not (is_some e))))
  unfolding main
  main-answered d info e = (ground arith, ground arith)

-- The example and Linux together: where the connection is dialed and its handle is given, the example
-- prints information exactly where GetTCPInfo has no error, and it never finds TCP information
-- unavailable.
pub main-answers :
    {NetErr : Type 0} (d : Dial NetErr) (g : Adapted) (fd : Socket)
    → (is_printed (main d (get_tcp_info g fd)) ≡ (is_open d && not (is_some (get_tcp_info g fd).1)))
      × (is_unavailable (main d (get_tcp_info g fd)) ≡ false)
main-answers d g fd =
    let (info, e) = get_tcp_info g fd in
    let a = main-answered d info e in
    let q = (get_tcp_info-answers g fd).1 in (ground (arith, a, q), ground (arith, a, q))
