-- ===== src/Wrap/World.antt =====
-- What package conniver takes from packages net, context and tcpinfo: sockets with their addresses,
-- errors, and the platform's information. The operations of a socket that can fail or block are
-- inputs of the model; these are the pure parts.
use conniver.Prelude.{Bool, Option}
use conniver.Prelude.Text.{Text}
use conniver.TcpInfo.Platform.{Platform}

pub record World : Type 1 where
  pub Ctx : Type 0
  pub Sock : Type 0
  pub Addr : Type 0
  pub Err : Type 0
  -- net.ErrClosed
  pub err_closed : Err
  -- err.(net.Error): `none` if the assertion fails, else what Timeout answers
  pub timeout : Err → Option Bool
  pub error_text : Err → Text
  pub addr_text : Addr → Text
  pub local_addr_of : Sock → Option Addr
  pub remote_addr_of : Sock → Option Addr
  -- conn.(*net.TCPConn)
  pub is_tcp : Sock → Bool
  pub platform : Platform
  pub open platform use *
