-- ===== src/Wrap/OnLinux.antt =====
-- The wrapper and the Linux platform together: what wrapping records of a TCP connection.
use conniver.Prelude.{
  ℕ, ◌≡◌, refl, ◌∙◌, ap, Bool, true, false, ◌&&◌, ◌||◌, ◌==◌, Option, none, some, Result, is_some,
  List, [], if◌then◌else◌, sym, inl, inr, Bool-cases,
}
use mathlib.Core.Path.{subst}
use conniver.Prelude.Text.{Text}
use conniver.Kernel.Order.{at_least}
use conniver.Kernel.Check.{Utsname, get_kernel_version}
use conniver.TcpInfo.Linux.Versions.{
  at_v2_6_2, numbered, Adapted, initial, detect, adapt_to_kernel_version,
}
use conniver.TcpInfo.Linux.Adapt.{adapt_to_kernel_version-flag}
use conniver.TcpInfo.Linux.Socket.{Error, Socket, get_tcp_info, supported}
use conniver.TcpInfo.Linux.Calls.{get_tcp_info-answers}
use conniver.TcpInfo.Linux.Instance.{linux}
use conniver.Wrap.World.{World}
use conniver.Wrap.Conn.{Conn, opened_state, apply_tcp_info_locked}
use conniver.Wrap.Report.{
  Collect, Collected, from_answer, collect_tcp_info, report_opened, apply_options, new_conn,
  WrapOption, wrap_conn_with_context,
}

-- Package net, with the errors of package tcpinfo among its errors.
pub record Net : Type 1 where
  pub Ctx : Type 0
  pub Sock : Type 0
  pub Addr : Type 0
  pub Err : Type 0
  pub err_closed : Err
  pub tcp_info_err : Error → Err
  pub timeout : Err → Option Bool
  pub error_text : Err → Text
  pub addr_text : Addr → Text
  pub local_addr_of : Sock → Option Addr
  pub remote_addr_of : Sock → Option Addr
  pub is_tcp : Sock → Bool

-- What init has made of what uname answers.
abbrev pub started : Result Text Utsname → Adapted
started answer = adapt_to_kernel_version (get_kernel_version answer) initial

abbrev pub is_recent : Result Text Utsname → Bool
is_recent answer = at_least (detect (get_kernel_version answer) none) (numbered 2 6 2)

supported-started : (answer : Result Text Utsname) → supported (started answer) ≡ is_recent answer
unfolding supported
supported-started answer =
    adapt_to_kernel_version-flag (get_kernel_version answer) initial at_v2_6_2

module _ (N : Net) where
  abbrev pub on_linux : World
  on_linux = record {
    Ctx = N.Ctx;
    Sock = N.Sock;
    Addr = N.Addr;
    Err = N.Err;
    err_closed = N.err_closed;
    timeout = N.timeout;
    error_text = N.error_text;
    addr_text = N.addr_text;
    local_addr_of = N.local_addr_of;
    remote_addr_of = N.remote_addr_of;
    is_tcp = N.is_tcp;
    platform = linux;
  }

  abbrev as_net : Option Error → Option N.Err
  as_net none = none
  as_net (some e) = some (N.tcp_info_err e)

  -- SyscallConn and Control succeed, and GetTCPInfo is called with the handle.
  abbrev pub collect : Adapted → Socket → Collect on_linux
  collect g fd = record {
    syscall_conn = none;
    control = none;
    answer = ((get_tcp_info g fd).0, as_net (get_tcp_info g fd).1);
  }

  abbrev pub wrapped :
      Adapted → Socket → N.Ctx → N.Sock → Bool → List (WrapOption on_linux) → ℕ → Conn on_linux
  wrapped g fd ctx sock report opts now =
      (wrap_conn_with_context on_linux ctx (some sock) report opts now (supported g)
        (collect g fd)).0

  abbrev pub first_info : Adapted → Socket → N.Ctx → N.Sock → Bool → ℕ → Collected on_linux
  first_info g fd ctx sock report now =
      collect_tcp_info on_linux (new_conn on_linux ctx (some sock) report now (supported g))
        (collect g fd)

  applied :
      (w : Conn on_linux) (info : _) (e : Option N.Err)
      → w.opened_info ≡ none
      → w.info_err ≡ none
      → (is_some (apply_tcp_info_locked on_linux opened_state info e w).opened_info ≡ is_some info)
        × ((is_some (apply_tcp_info_locked on_linux opened_state info e w).opened_info
              || is_some (apply_tcp_info_locked on_linux opened_state info e w).info_err)
            ≡ (is_some info || is_some e))
  unfolding apply_tcp_info_locked
  applied w none none h k = rw (h, k) (refl, refl)
  applied w none (some e) h k = rw h (refl, refl)
  applied w (some i) e h k = (refl, refl)

  from_answer-some :
      (i : Option _) (e : Option Error)
      → (is_some (from_answer on_linux i (as_net e)).0 ≡ is_some i)
        × ((is_some (from_answer on_linux i (as_net e)).0
              || is_some (from_answer on_linux i (as_net e)).1)
            ≡ (is_some i || is_some e))
  from_answer-some none none = (refl, refl)
  from_answer-some none (some e) = (refl, refl)
  from_answer-some (some i) e = (refl, refl)

  collected :
      (g : Adapted) (fd : Socket) (ctx : N.Ctx) (sock : N.Sock) (report : Bool) (now : ℕ)
      → N.is_tcp sock ≡ true
      → (is_some (first_info g fd ctx sock report now).0
          ≡ (supported g && ((fd.tcp_info g.size_of_raw_tcp_info).0 == 0)))
        × ((is_some (first_info g fd ctx sock report now).0
              || is_some (first_info g fd ctx sock report now).1)
            ≡ supported g)
  unfolding collect_tcp_info new_conn
  collected g fd ctx sock report now tcp = elim (Bool-cases (supported g)) [
    | inl s ↦
        let a = from_answer-some (get_tcp_info g fd).0 (get_tcp_info g fd).1 in
        let q = get_tcp_info-answers g fd in
        rw (s, tcp)
          (a.0 ∙ (q.0 ∙ ap (λ b. b && ((fd.tcp_info g.size_of_raw_tcp_info).0 == 0)) s), a.1 ∙ q.1)
    | inr s ↦ rw s (refl, refl)
  ]

  -- The option of an open callback does not change what is recorded.
  wrapped-applied :
      (g : Adapted) (fd : Socket) (ctx : N.Ctx) (sock : N.Sock) (report : Bool)
      (opts : List (WrapOption on_linux)) (now : ℕ)
      → wrapped g fd ctx sock report opts now ≡ (
          let w = new_conn on_linux ctx (some sock) report now (supported g) in
          let c = collect_tcp_info on_linux w (collect g fd) in
          apply_tcp_info_locked on_linux opened_state c.0 c.1 w)
  unfolding wrap_conn_with_context report_opened
  wrapped-applied g fd ctx sock report opts now =
      let w = new_conn on_linux ctx (some sock) report now (supported g) in
      let c = collect_tcp_info on_linux w (collect g fd) in
      let w' = apply_tcp_info_locked on_linux opened_state c.0 c.1 w in
      elim (Bool-cases (apply_options on_linux opts false)) [
        | inl e ↦ ap (λ b. (if b then report_opened on_linux c.0 c.1 w else (w', [])).0) e
        | inr e ↦ ap (λ b. (if b then report_opened on_linux c.0 c.1 w else (w', [])).0) e
      ]

  -- The wrapper and Linux together: wrapping a TCP connection whose handle is given, without an error,
  -- records information exactly where the kernel is supported and TCP_INFO answers without an errno,
  -- whether or not the callback is called then, and it records information or an error exactly where
  -- the kernel is supported.
  pub wrapped-records :
      (g : Adapted) (fd : Socket) (ctx : N.Ctx) (sock : N.Sock) (report : Bool)
      (opts : List (WrapOption on_linux)) (now : ℕ)
      → N.is_tcp sock ≡ true
      → (is_some (wrapped g fd ctx sock report opts now).opened_info
          ≡ (supported g && ((fd.tcp_info g.size_of_raw_tcp_info).0 == 0)))
        × ((is_some (wrapped g fd ctx sock report opts now).opened_info
              || is_some (wrapped g fd ctx sock report opts now).info_err)
            ≡ supported g)
  unfolding wrap_conn_with_context report_opened apply_tcp_info_locked new_conn collect_tcp_info
  wrapped-records g fd ctx sock report opts now tcp =
      let w = new_conn on_linux ctx (some sock) report now (supported g) in
      let c = collect_tcp_info on_linux w (collect g fd) in
      let q = collected g fd ctx sock report now tcp in
      let a = applied w c.0 c.1 refl refl in
      subst
        (λ x.
          (is_some x.opened_info ≡ (supported g && ((fd.tcp_info g.size_of_raw_tcp_info).0 == 0)))
          × ((is_some x.opened_info || is_some x.info_err) ≡ supported g))
        (sym (wrapped-applied g fd ctx sock report opts now)) (a.0 ∙ q.0, a.1 ∙ q.1)

  -- From the kernel to the wrapper: after init, wrapping a TCP connection whose handle is given,
  -- without an error, records information exactly where the release of the running kernel is at least
  -- 2.6.2, or is not found, and TCP_INFO answers without an errno, and it records information or an
  -- error exactly where the release is at least that, or is not found.
  pub wrapped-started :
      (answer : Result Text Utsname) (fd : Socket) (ctx : N.Ctx) (sock : N.Sock) (report : Bool)
      (opts : List (WrapOption on_linux)) (now : ℕ)
      → N.is_tcp sock ≡ true
      → (is_some (wrapped (started answer) fd ctx sock report opts now).opened_info
          ≡ (is_recent answer && ((fd.tcp_info (started answer).size_of_raw_tcp_info).0 == 0)))
        × ((is_some (wrapped (started answer) fd ctx sock report opts now).opened_info
              || is_some (wrapped (started answer) fd ctx sock report opts now).info_err)
            ≡ is_recent answer)
  wrapped-started answer fd ctx sock report opts now tcp =
      let r = wrapped-records (started answer) fd ctx sock report opts now tcp in
      let e = supported-started answer in
      (r.0 ∙ ap (λ b. b && ((fd.tcp_info (started answer).size_of_raw_tcp_info).0 == 0)) e, r.1 ∙ e)
