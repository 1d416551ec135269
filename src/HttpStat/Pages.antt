-- ===== src/HttpStat/Pages.antt =====
-- When a visit comes as far as its page, and what it has printed where it does not.
use conniver.Prelude.{
  ℕ, ◌≡◌, refl, ◌∙◌, Bool, true, false, ◌&&◌, not, if◌then◌else◌, ◌||◌, Option, none, some, is_some,
  List, [], ◌∷◌, ◌++◌, all, all-append, arith,
}
use mathlib.Core.Path.{subst}
use conniver.Prelude.Text.{Text, codes, ◌=ₜ◌}
use conniver.Wrap.World.{World}
use conniver.Wrap.Conn.{Conn}
use conniver.HttpStat.Start.{Flags}
use conniver.HttpStat.Certificates.{Loaded, is_usable}
use conniver.HttpStat.Output.{Body, written, fatal, body_message}
use conniver.HttpStat.Timing.{
  Time, Times, no_times, TraceEvent, dns_start, dns_done, connect_start, connect_done, got_conn,
  first_byte, tls_start, tls_done, trace_event, run_trace,
}
use conniver.HttpStat.Connection.{connected_via}
use conniver.HttpStat.Request.{Request}
use conniver.HttpStat.Visit.{
  Response, Exchange, Print, connected_to, via, connections, body_of, with_message, with_response,
  with_trace, refuses_certs, visit_page,
}

-- No connection has failed.
abbrev pub all_connected : List (Time × TraceEvent) → Bool
all_connected [] = true
all_connected ((now, connect_done addr false) ∷ es) = false
all_connected ((now, e) ∷ es) = all_connected es

traced-connected :
    (es : List (Time × TraceEvent)) (t : Times) → is_some (run_trace es t) ≡ all_connected es
unfolding run_trace trace_event
traced-connected [] t = refl
traced-connected ((now, connect_done addr false) ∷ es) t = refl
traced-connected ((now, connect_done addr true) ∷ es) t = traced-connected es _
traced-connected ((now, dns_start) ∷ es) t = traced-connected es _
traced-connected ((now, dns_done) ∷ es) t = traced-connected es _
traced-connected ((now, connect_start) ∷ es) t = traced-connected es _
traced-connected ((now, got_conn) ∷ es) t = traced-connected es _
traced-connected ((now, first_byte) ∷ es) t = traced-connected es _
traced-connected ((now, tls_start) ∷ es) t = traced-connected es _
traced-connected ((now, tls_done) ∷ es) t = traced-connected es _

-- A body that is to be written is created and copied, and none is refused a name.
abbrev pub is_saved : Bool → Bool → Body → Bool
is_saved created copied fatal = false
is_saved created copied (written name) = created && copied
is_saved created copied _ = true

message-saved :
    (created copied : Bool) (b : Body)
    → is_some (body_message created copied b) ≡ is_saved created copied b
unfolding body_message
message-saved created copied b = ground arith

module _ (W : World) {Cert : Type 0} (duration_string : ℕ → Text) (flags : Flags)
    (certs : Loaded Cert) (scheme : Text) where
  -- There is a response, and its body is dealt with.
  abbrev pub is_answered : Text → Exchange W → Option Response → Bool
  is_answered method ex none = false
  is_answered method ex (some resp) =
      is_saved ex.created ex.copied (body_of W duration_string flags certs scheme method ex resp)

  abbrev pub is_early : Print W → Bool
  is_early (connected_to addr) = true
  is_early (via version) = true
  is_early _ = false

  connections-early : (es : List (Time × TraceEvent)) → all is_early (connections W es) ≡ true
  connections-early [] = refl
  connections-early ((now, connect_done addr true) ∷ es) = connections-early es
  connections-early ((now, connect_done addr false) ∷ es) = refl
  connections-early ((now, dns_start) ∷ es) = connections-early es
  connections-early ((now, dns_done) ∷ es) = connections-early es
  connections-early ((now, connect_start) ∷ es) = connections-early es
  connections-early ((now, got_conn) ∷ es) = connections-early es
  connections-early ((now, first_byte) ∷ es) = connections-early es
  connections-early ((now, tls_start) ∷ es) = connections-early es
  connections-early ((now, tls_done) ∷ es) = connections-early es

  -- Comes so far exactly by the test, and else has printed early lines only.
  abbrev pub Comes : Bool → List (Print W) × Bool → Type 0
  Comes b run = (run.1 ≡ b) × ((run.1 || all is_early run.0) ≡ true)

  with_message-Comes :
      (before : List (Print W)) (o : Option Text) (rest : Text → List (Print W))
      → all is_early before ≡ true
      → Comes (is_some o) (with_message W duration_string flags certs scheme before o rest)
  with_message-Comes before none rest h = (refl, h)
  with_message-Comes before (some msg) rest h = (refl, refl)

  with_response-Comes :
      (old : Option (Conn W)) (method : Text) (ex : Exchange W) (t : Times) (o : Option Response)
      → Comes
          (is_answered method ex o)
          (with_response W duration_string flags certs scheme old method ex t o)
  with_response-Comes old method ex t none = (refl, connections-early ex.events)
  with_response-Comes old method ex t (some resp) =
      let b = body_of W duration_string flags certs scheme method ex resp in
      let q =
        with_message-Comes (connections W ex.events ++ via (connected_via resp.tls_version) ∷ [])
          (body_message ex.created ex.copied b) _
          (all-append is_early (connections W ex.events) (via (connected_via resp.tls_version) ∷ [])
            (connections-early ex.events) refl) in
      (q.0 ∙ message-saved ex.created ex.copied b, q.1)

  with_trace-Comes :
      (old : Option (Conn W)) (method : Text) (ex : Exchange W) (o : Option Times)
      → Comes
          (is_some o && is_answered method ex ex.response)
          (with_trace W duration_string flags certs scheme old method ex o)
  with_trace-Comes old method ex none = (refl, connections-early ex.events)
  with_trace-Comes old method ex (some t) = with_response-Comes old method ex t ex.response

  visited-Comes :
      (b : Bool) (old : Option (Conn W)) (method : Text) (ex : Exchange W) (o : Option Times)
      → Comes (not b && (is_some o && is_answered method ex ex.response)) (
          if b
          then ([], false)
          else with_trace W duration_string flags certs scheme old method ex o)
  visited-Comes true old method ex o = (refl, refl)
  visited-Comes false old method ex o = with_trace-Comes old method ex o

  -- A visit comes as far as its page exactly where for https the client certificate can be used, no
  -- connection fails, the transport has a response, and the body is skipped, discarded, or written to
  -- a file that has a name, is created and takes all of it; where it does not, it has printed nothing
  -- but where and how it connected.
  pub visit_page-Comes :
      {Rest : Type 0} (old : Option (Conn W)) (req : Request Rest) (ex : Exchange W)
      → Comes
          (not (scheme =ₜ codes "https" && not (is_usable certs))
            && (all_connected ex.events && is_answered req.method ex ex.response))
          (visit_page W duration_string flags certs scheme old (some req) ex)
  unfolding visit_page
  visit_page-Comes old req ex =
      subst
        (λ b.
          Comes
            (not (refuses_certs W duration_string flags certs scheme)
              && (b && is_answered req.method ex ex.response))
            (visit_page W duration_string flags certs scheme old (some req) ex))
        (traced-connected ex.events no_times)
        (visited-Comes (refuses_certs W duration_string flags certs scheme) old req.method ex
          (run_trace ex.events no_times))
