-- ===== src/Wrap/Detached.antt =====
-- A snapshot is detached from the connection that it was taken of.
use conniver.Prelude.{ℕ, ◌≡◌, refl, sym, Option, none, some, err, arith}
use mathlib.Core.Path.{subst}
use mathlib.Core.List.{Memᴰ}
use conniver.TcpInfo.{Info, clone_info}
use conniver.Wrap.World.{World}
use conniver.Wrap.Conn.{Conn, begin_io, live_conn, local_addr_locked, remote_addr_locked}
use conniver.Wrap.Report.{
  snapshot_locked, sys_part, info_warnings, warnings, local_addr_string, remote_addr_string,
}
use conniver.Wrap.Close.{refusal, refused, close_enter}
use conniver.Wrap.System.{System, Reach}
use conniver.Wrap.Invariant.Step.{Fresh}
use conniver.Wrap.Safety.{Reach-Shows}

module _ (W : World) where
  open W use {clone_sys, clone-none, clone-some}

  -- On what snapshotLocked gives, reads and writes are refused, and so is Close, with the error of the
  -- connection's Close if there is one; none of them changes it.
  pub snapshot_locked-refuses :
      (w : Conn W) (ts : _)
      → (begin_io W (snapshot_locked W w) ≡ (snapshot_locked W w, err W.err_closed))
        × (live_conn W (snapshot_locked W w) ≡ err (refusal W w.close_err))
        × (close_enter W ts (snapshot_locked W w)
            ≡ (snapshot_locked W w, refused (refusal W w.close_err)))
  unfolding begin_io live_conn close_enter snapshot_locked
  snapshot_locked-refuses w ts = (ground arith, ground arith, ground arith)

  sys_part-clone : (o : Option W.SysInfo) → sys_part W (clone_sys o) ≡ sys_part W o
  sys_part-clone none = rw clone-none
  sys_part-clone (some s) = let (t, e, k) = clone-some s in rw e k

  info_warnings-clone :
      (o : Option (Info W.SysInfo)) → info_warnings W (clone_info clone_sys o) ≡ info_warnings W o
  unfolding clone_info
  info_warnings-clone none = refl
  info_warnings-clone (some i) = rw (sys_part-clone i.sys)

  -- A snapshot gives the same warnings and the same addresses as the connection that it was taken
  -- of, though its information is cloned and the connection is gone from it.
  pub snapshot_locked-reports :
      (w : Conn W)
      → (warnings W (snapshot_locked W w) ≡ warnings W w)
        × (local_addr_string W (snapshot_locked W w) ≡ local_addr_string W w)
        × (remote_addr_string W (snapshot_locked W w) ≡ remote_addr_string W w)
  unfolding warnings snapshot_locked local_addr_string remote_addr_string local_addr_locked
      remote_addr_locked
  snapshot_locked-reports w = (
    rw (info_warnings-clone w.opened_info, info_warnings-clone w.closed_info),
    ground arith,
    ground arith,
  )

  -- In every state that goroutines reach on a connection that has just been wrapped, whatever
  -- connection the callback has been called with since the wrapping is detached: Read and Write on it
  -- are refused with net.ErrClosed, and what needs a live connection, and Close, with the error of the
  -- connection's Close, or net.ErrClosed where that is nil; none of them changes it.
  pub Reach-detached :
      {n : ℕ} {w : Conn W} {s : System W}
      → Fresh W w
      → Reach W n w s
      → (snap : Conn W) (state : ℕ) → Memᴰ (snap, state) s.mem.log
      → (ts : ℕ)
      → (begin_io W snap ≡ (snap, err W.err_closed))
        × (live_conn W snap ≡ err (refusal W s.mem.w.close_err))
        × (close_enter W ts snap ≡ (snap, refused (refusal W s.mem.w.close_err)))
  Reach-detached {s = s} f r snap state q ts =
      let shown = Reach-Shows W f r snap state q in
      subst
        (λ x.
          (begin_io W x ≡ (x, err W.err_closed))
          × (live_conn W x ≡ err (refusal W s.mem.w.close_err))
          × (close_enter W ts x ≡ (x, refused (refusal W s.mem.w.close_err))))
        (sym shown) (snapshot_locked-refuses (record s.mem.w { reconnects = snap.reconnects }) ts)
