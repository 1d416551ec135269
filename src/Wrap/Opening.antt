-- ===== src/Wrap/Opening.antt =====
-- A connection that has just been wrapped.
use conniver.Prelude.{
  ℕ, ◌≡◌, refl, Bool, false, ◌&&◌, some, List, [], ◌∷◌, if◌then◌else◌, Bool-cases, inl, inr,
}
use conniver.Wrap.World.{World}
use conniver.Wrap.Conn.{Conn, opened_state, apply_tcp_info_locked}
use conniver.Wrap.Report.{
  Collect, Collected, Call, WrapOption, snapshot_locked, collect_tcp_info, report_opened,
  apply_options, new_conn, wrap_conn_with_context,
}
use conniver.Wrap.Invariant.Step.{Fresh}

module _ (W : World) where
  -- Wrapping a connection, whatever the callback, the options and the answers of the platform, gives
  -- one with no I/O in flight, no bytes counted and no Close begun.
  pub wrap_conn_with_context-Fresh :
      (ctx : W.Ctx) (sock : W.Sock) (report : Bool) (opts : _) (now : ℕ) (supported : Bool)
      (c : Collect W)
      → Fresh W (wrap_conn_with_context W ctx (some sock) report opts now supported c).0
  unfolding wrap_conn_with_context report_opened apply_tcp_info_locked new_conn
  wrap_conn_with_context-Fresh ctx sock report opts now supported c =
      elim (Bool-cases (apply_options W opts false)) [
        | inl e ↦ rw e (record {
          idle_io = refl;
          no_rx = refl;
          no_tx = refl;
          not_started = refl;
          no_close = refl;
          connected = refl;
        })
        | inr e ↦ rw e (record {
          idle_io = refl;
          no_rx = refl;
          no_tx = refl;
          not_started = refl;
          no_close = refl;
          connected = refl;
        })
      ]

  module _ (ctx : W.Ctx) (sock : W.Sock) (report : Bool) (now : ℕ) (supported : Bool)
      (c : Collect W) where
    abbrev pub opened : List (WrapOption W) → Conn W × List (Call W)
    opened opts = wrap_conn_with_context W ctx (some sock) report opts now supported c

    abbrev pub answer : Collected W
    answer = collect_tcp_info W (new_conn W ctx (some sock) report now supported) c

    -- What the callback is called with where it is wanted.
    abbrev pub opening_calls : Bool → Conn W → List (Call W)
    opening_calls wanted w =
        if wanted
        then (record (snapshot_locked W w) { conn = some sock }, opened_state) ∷ []
        else []

    abbrev Opens : Bool → Conn W × List (Call W) → Type 0
    Opens b r =
        (r.0.opened_info ≡ answer.0)
        × (r.0.info_err ≡ answer.1)
        × (r.1 ≡ opening_calls (b && report) r.0)

    abbrev opened_by : Bool → Conn W × List (Call W)
    opened_by b =
        let w = new_conn W ctx (some sock) report now supported in
        if b
        then report_opened W answer.0 answer.1 w
        else (apply_tcp_info_locked W opened_state answer.0 answer.1 w, [])
