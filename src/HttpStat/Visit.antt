-- ===== src/HttpStat/Visit.antt =====
-- cmd/httpstat/main.go: one visit, from the request to the printed page, before any redirect. What the
-- transport, the server and the file system answer are inputs.
use conniver.Prelude.{
  ℕ, Bool, true, false, not, ◌&&◌, Option, none, some, List, [], ◌∷◌, ◌++◌, if◌then◌else◌,
}
use mathlib.Core.List.{map}
use conniver.Prelude.Text.{Text, codes, ◌=ₜ◌}
use conniver.Wrap.World.{World}
use conniver.Wrap.Conn.{Conn}
use conniver.Wrap.Report.{Call}
use conniver.HttpStat.Start.{Flags}
use conniver.HttpStat.Certificates.{Loaded, is_usable}
use conniver.HttpStat.Output.{Parsed, Body, read_response_body, body_message}
use conniver.HttpStat.Timing.{
  Time, Times, no_times, TraceEvent, connect_done, run_trace, skip_dns, cells,
}
use conniver.HttpStat.Connection.{connected_via, get_conniver, Line, conn_lines}
use conniver.HttpStat.Request.{Request}
use conniver.HttpStat.Printing.{Header, header_lines, values, status_line}

pub record Response : Type 0 where
  pub status_code : ℕ
  pub proto_major : ℕ
  pub proto_minor : ℕ
  pub status : Text
  pub header : Header
  pub tls_version : Option ℕ

module _ (W : World) where
  -- What happens outside during a visit: the callbacks of the trace, the answer of client.Do, the
  -- parse of Content-Disposition, the URI of the request, whether the file is created and the body
  -- copied, the time after that, and the calls of the callback of WrapConn.
  pub record Exchange : Type 0 where
    pub events : List (Time × TraceEvent)
    pub response : Option Response
    pub disposition : Parsed
    pub request_uri : Text
    pub created : Bool
    pub copied : Bool
    pub t7 : Time
    pub reports : List (Call W)

  -- A table without cells is not printed.
  pub data Print : Type 0 where
    connected_to : Text → Print
    via : Text → Print
    status : Text → Print
    header : Text → Print
    body_msg : Text → Print
    table : Text → List Text → Print
    about : Line W → Print

  -- Header.Get
  abbrev get : List Text → Text
  get [] = []
  get (v ∷ vs) = v

  -- What ConnectDone prints, up to an error.
  abbrev pub connections : List (Time × TraceEvent) → List Print
  connections [] = []
  connections ((now, connect_done addr true) ∷ es) = connected_to addr ∷ connections es
  connections ((now, connect_done addr false) ∷ es) = []
  connections ((now, e) ∷ es) = connections es

  abbrev message_prints : Text → List Print
  message_prints [] = []
  message_prints (c ∷ s) = body_msg (c ∷ s) ∷ []

  module _ {Cert : Type 0} (duration_string : ℕ → Text) (flags : Flags) (certs : Loaded Cert)
      (scheme : Text) where
    -- The page, with the times and the connection that getConniver gives.
    abbrev page : Times → Time → Option (Conn W) → Response → Text → List Print
    page t t7 conn resp msg =
        status (status_line resp.proto_major resp.proto_minor resp.status)
          ∷ map header (header_lines resp.header)
        ++ (message_prints msg
            ++ table scheme (cells scheme (skip_dns t) t7)
              ∷ map about (conn_lines W duration_string conn))

    abbrev pub body_of : Text → Exchange → Response → Body
    body_of method ex resp =
        read_response_body resp.status_code (method =ₜ codes "HEAD") flags.save_output
          flags.output_file (get (values (codes "Content-Disposition") resp.header)) ex.disposition
          ex.request_uri

    abbrev pub with_message : List Print → Option Text → (Text → List Print) → List Print × Bool
    with_message before none rest = (before, false)
    with_message before (some msg) rest = (before ++ rest msg, true)

    abbrev pub with_response :
        Option (Conn W) → Text → Exchange → Times → Option Response → List Print × Bool
    with_response old method ex t none = (connections ex.events, false)
    with_response old method ex t (some resp) =
        with_message (connections ex.events ++ via (connected_via resp.tls_version) ∷ [])
          (body_message ex.created ex.copied (body_of method ex resp))
          (page t ex.t7 (get_conniver W old ex.reports) resp)

    abbrev pub with_trace : Option (Conn W) → Text → Exchange → Option Times → List Print × Bool
    with_trace old method ex none = (connections ex.events, false)
    with_trace old method ex (some t) = with_response old method ex t ex.response

    -- readClientCert, which is called for https, ends in log.Fatalf.
    abbrev pub refuses_certs : Bool
    refuses_certs = scheme =ₜ codes "https" && not (is_usable certs)

    -- visit up to the redirect: what it prints, and whether it comes so far; where it does not, it has
    -- ended in log.Fatalf. `certs` is what readClientCert answers, and `old` what getConniver gave before.
    unfoldable pub visit_page :
        {Rest : Type 0} → Option (Conn W) → Option (Request Rest) → Exchange → List Print × Bool
    visit_page old none ex = ([], false)
    visit_page old (some req) ex =
        if refuses_certs
        then ([], false)
        else with_trace old req.method ex (run_trace ex.events no_times)
