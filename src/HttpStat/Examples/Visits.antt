-- ===== src/HttpStat/Examples/Visits.antt =====
-- A visit of a plain URL, with two headers and a certificate, and the theorems about it applied.
use conniver.Prelude.{
  ℕ, ◌<◌, ◌≤◌, ◌≡◌, refl, sym, ◌∙◌, ap, inl, inr, true, false, not, ◌&&◌, Option, none, some,
  is_some, List, [], ◌∷◌, ◌==◌, length, if◌then◌else◌, arith, Bool-cases,
}
use mathlib.Core.Path.{subst}
use mathlib.Core.List.{map}
use conniver.Prelude.Text.{Text, codes, ◌=ₜ◌, =ₜ_sound}
use conniver.Prelude.Words.{w64}
use conniver.Prelude.Decimal.{decimal}
use conniver.Wrap.Conn.{Conn}
use conniver.Wrap.Examples.Run.{net, s10, Fresh-conn, r10}
use conniver.Wrap.System.{returned}
use conniver.HttpStat.Start.{Url, Flags, visits, parse_url, needs_body, main}
use conniver.HttpStat.Url.{main-visits}
use conniver.HttpStat.Certificates.{
  Loaded, no_file, is_usable, Block, Blocks, is_key, is_cert, encoded, last_with, find_pems,
  find_pems-last,
}
use conniver.HttpStat.Sums.{http_run}
use conniver.HttpStat.Headers.{less, header_key_value}
use conniver.HttpStat.Request.{Request, add_headers}
use conniver.HttpStat.Pairs.{header_key_value-colon}
use conniver.HttpStat.Connection.{get_conniver}
use conniver.HttpStat.Final.{Reach-get_conniver}
use conniver.HttpStat.Printing.{Header, names, values, header_line, header_lines}
use conniver.HttpStat.Sorted.{IsSorted, count}
use conniver.HttpStat.Insertion.{header_lines_unique}
use conniver.HttpStat.Redirects.{Location, location}
use conniver.HttpStat.Run.{Outside, command, command-ends}
use conniver.HttpStat.Visit.{Response, Exchange, visit_page}
use conniver.HttpStat.Pages.{all_connected, is_answered, Comes, visit_page-Comes}

-- Whatever is written is the host.
abbrev parse : Text → Option (Url ℕ)
parse uri = some (record { scheme = []; host = uri; rest = 0 })

abbrev url : Url ℕ
url = record { scheme = codes "http"; host = codes "//example.org:80"; rest = 0 }

parsed : parse_url parse (codes "example.org:80") ≡ some url
unfolding parse_url
parsed = refl

abbrev flags : Flags
flags = record {
  http_method = codes "PUT";
  post_body = codes "x";
  follow_redirects = true;
  only_header = true;
  insecure = false;
  http_headers = codes "Host: a" ∷ [];
  save_output = false;
  output_file = [];
  show_version = false;
  client_cert_file = [];
  four_only = true;
  six_only = false;
}

started : main parse flags (codes "example.org:80" ∷ []) ≡ visits (codes "HEAD") url
unfolding main parse_url
started = refl

main-visits_example :
    (flags.show_version ≡ false)
    × ((flags.four_only && flags.six_only) ≡ false)
    × ((a : Text) × (codes "example.org:80" ∷ [] ≡ a ∷ []) × (parse_url parse a ≡ some url))
    × ((needs_body parse (codes "HEAD") && flags.post_body =ₜ []) ≡ false)
    × (codes "HEAD" ≡ (if flags.only_header then codes "HEAD" else flags.http_method))
main-visits_example =
    main-visits parse flags (codes "example.org:80" ∷ []) (codes "HEAD") url started

abbrev headers : List Text
headers = codes "HOST: a.example" ∷ codes "Accept: text/html" ∷ codes "host:b.example" ∷ []

abbrev request : Request ℕ
request = record {
  method = codes "GET";
  host = codes "example.org";
  header = [];
  body = [];
  other = 0;
}

header_key_value-colon_example :
    header_key_value (codes "X-Forwarded-For: ::1") ≡ some (codes "X-Forwarded-For", codes "1")
header_key_value-colon_example =
    header_key_value-colon (codes "X-Forwarded-For") (codes " ::1") refl

-- Each character is a block.
abbrev decode : Text → Option (Block × Text)
decode [] = none
decode (c ∷ s) = some (
  record {
    kind = if c == 67 then codes "CERTIFICATE" else codes "RSA PRIVATE KEY";
    encoding = c ∷ [];
  },
  s,
)

decode-shorter :
    (bytes : Text) (b : Block) (rest : Text)
    → decode bytes ≡ some (b, rest)
    → length rest < length bytes
decode-shorter [] b rest h = absurd (ground arith)
decode-shorter (c ∷ s) b rest h = ground arith

find_pems-last_example :
    (bs : List Block) × Blocks decode (codes "KC") bs
    × (find_pems decode 3 (codes "KC") [] []
        ≡ some (encoded [] (last_with is_key bs), encoded [] (last_with is_cert bs)))
find_pems-last_example = find_pems-last decode decode-shorter 3 (codes "KC") [] [] (omega arith)

at_end : s10.pc 1 ≡ returned (some 5)
unfolding native.Mathlib.Decide.ℕ_discrete
at_end = refl

Reach-get_conniver_example :
    (snap : Conn net) × (get_conniver net none s10.mem.log ≡ some snap)
    × (w64 snap.rx_bytes ≡ w64 s10.mem.rx_total)
    × (w64 snap.tx_bytes ≡ w64 s10.mem.tx_total)
unfolding conniver.Wrap.Report.wrap_conn_with_context conniver.Wrap.Conn.apply_tcp_info_locked
Reach-get_conniver_example = Reach-get_conniver net Fresh-conn refl r10 1 (some 5) at_end none

abbrev walk : Header
walk = (codes "Server", codes "x" ∷ []) ∷ (codes "Date", codes "now" ∷ []) ∷ []

abbrev other_walk : Header
other_walk = (codes "Date", codes "now" ∷ []) ∷ (codes "Server", codes "x" ∷ []) ∷ []

abbrev sorted : List Text
sorted = codes "Server" ∷ codes "Date" ∷ []

is_date : (j : Text) → 0 < count j (codes "Date" ∷ []) → j ≡ codes "Date"
is_date j h = elim (Bool-cases (j =ₜ codes "Date")) [
  | inl e ↦ =ₜ_sound j (codes "Date") e
  | inr e ↦ absurd (ground (arith, e))
]

sorted-IsSorted : IsSorted sorted
unfolding less
sorted-IsSorted =
    (λ j h. ap (λ k. less k (codes "Server")) (is_date j h), (λ j h. absurd (omega arith), tt))

same_count : (k : Text) → count k (names walk) ≡ count k (names other_walk)
same_count k = omega arith

same_values : (k : Text) → values k walk ≡ values k other_walk
same_values k = elim (Bool-cases (k =ₜ codes "Server")) [
  | inl e ↦
      ap (λ j. values j walk) (=ₜ_sound k (codes "Server") e)
      ∙ ap (λ j. values j other_walk) (sym (=ₜ_sound k (codes "Server") e))
  | inr e ↦ rw e refl
]

one_each : (k : Text) → count k (names walk) ≤ 1
one_each k = elim (Bool-cases (k =ₜ codes "Server")) [
  | inl e ↦
      subst (λ j. count j (names walk) ≤ 1) (sym (=ₜ_sound k (codes "Server") e)) (omega arith)
  | inr e ↦ ground (arith, e)
]

header_lines_unique_example :
    (header_lines walk ≡ header_lines other_walk)
    × (header_lines walk ≡ map (header_line other_walk) sorted)
header_lines_unique_example =
    header_lines_unique walk other_walk sorted one_each same_count same_values
      (same_count, sorted-IsSorted)

abbrev no_certs : Loaded ℕ
no_certs = no_file

abbrev response : Response
response = record {
  status_code = 200;
  proto_major = 1;
  proto_minor = 1;
  status = codes "200 OK";
  header = walk;
  tls_version = none;
}

abbrev exchange : Exchange net
exchange = record {
  events = http_run true 1000000 3500000 3600000 9000000 9100000 20999999;
  response = some response;
  disposition = none;
  request_uri = codes "/";
  created = true;
  copied = true;
  t7 = 30000000;
  reports = s10.mem.log;
}

visit_page-Comes_example :
    Comes net decimal flags no_certs
      (codes "http")
      (not (codes "http" =ₜ codes "https" && not (is_usable no_certs))
        && (all_connected exchange.events
            && is_answered net decimal flags no_certs
                (codes "http")
                (codes "GET")
                exchange
                (some response)))
      (visit_page net decimal flags no_certs (codes "http") none (some request) exchange)
visit_page-Comes_example =
    visit_page-Comes net decimal flags no_certs (codes "http") none request exchange

-- A server that answers for ever with a redirect to itself.
abbrev circular : ℕ → Url ℕ → Location (Url ℕ)
circular followed u = location u

abbrev make : Text → Url ℕ → Text → Option (Request ℕ)
make method u body = some (record request { method = method })

abbrev outside : Outside net ℕ ℕ ℕ
outside = record {
  parse = parse;
  make = make;
  canonical = λ k. k;
  open_file = λ name. none;
  split = λ host. none;
  decode = decode;
  read_file = λ name. none;
  key_pair = λ cert key. none;
  exchange = λ followed to tls req u. record exchange {
    response = some (record response { status_code = 302 });
  };
  location_of = circular;
}

command-ends_example :
    (is_some (command net decimal flags outside (codes "a:80" ∷ [])).1 ≡ true)
    × (length (command net decimal flags outside (codes "a:80" ∷ [])).0 ≤ 11)
command-ends_example = command-ends net decimal flags outside decode-shorter (codes "a:80" ∷ [])

eleven_visits :
    (length (command net decimal flags outside (codes "a:80" ∷ [])).0 ≡ 11)
    × ((command net decimal flags outside (codes "a:80" ∷ [])).1 ≡ some 1)
unfolding command main parse_url conniver.HttpStat.Run.run conniver.HttpStat.Request.new_request
    add_headers conniver.HttpStat.Headers.header_key_value conniver.HttpStat.Start.create_body
    visit_page conniver.HttpStat.Timing.run_trace conniver.HttpStat.Timing.trace_event
    conniver.HttpStat.Output.read_response_body conniver.HttpStat.Output.body_message
    conniver.HttpStat.Output.is_redirect
eleven_visits = (refl, refl)
