-- ===== src/HttpStat/Start.antt =====
-- cmd/httpstat/main.go: what main checks, parseURL, and createBody. url.Parse and os.Open are
-- parameters.
use conniver.Prelude.{
  ℕ, Bool, not, ◌&&◌, ◌||◌, Option, none, some, List, [], ◌∷◌, ◌++◌, if◌then◌else◌,
}
use conniver.Prelude.Text.{Text, codes, ◌=ₜ◌, has_prefix, has_suffix, contains}

-- A URL, of which the program itself reads and sets two fields.
pub record Url (Rest : Type 0) : Type 0 where
  pub scheme : Text
  pub host : Text
  pub rest : Rest

-- createBody: a file for `@filename`, else the text. `none` is log.Fatalf.
unfoldable pub create_body : (Text → Option Text) → Text → Option Text
create_body open_file [] = some []
create_body open_file (c ∷ body) =
    if has_prefix (c ∷ body) (codes "@") then open_file body else some (c ∷ body)

-- The flags that main and visit read.
pub record Flags : Type 0 where
  pub http_method : Text
  pub post_body : Text
  pub follow_redirects : Bool
  pub only_header : Bool
  pub insecure : Bool
  pub http_headers : List Text
  pub save_output : Bool
  pub output_file : Text
  pub show_version : Bool
  pub client_cert_file : Text
  pub four_only : Bool
  pub six_only : Bool

module _ {Rest : Type 0} (parse : Text → Option (Url Rest)) where
  abbrev pub absolute : Text → Text
  absolute uri =
      if not (contains uri (codes "://")) && not (has_prefix uri (codes "//"))
      then codes "//" ++ uri
      else uri

  abbrev pub default_scheme : Text → Text
  default_scheme host = if not (has_suffix host (codes ":80")) then codes "https" else codes "http"

  abbrev pub with_scheme : Option (Url Rest) → Option (Url Rest)
  with_scheme none = none
  with_scheme (some url) =
      some (if url.scheme =ₜ [] then record url { scheme = default_scheme url.host } else url)

  -- parseURL; `none` is its log.Fatalf.
  unfoldable pub parse_url : Text → Option (Url Rest)
  parse_url uri = with_scheme (parse (absolute uri))

  -- How main ends, up to visit: with a status, or with the visit of a URL by a method.
  pub data Outcome : Type 0 where
    exits : ℕ → Outcome
    visits : Text → Url Rest → Outcome

  abbrev pub needs_body : Text → Bool
  needs_body method = method =ₜ codes "POST" || method =ₜ codes "PUT"

  abbrev pub start : Text → Option (Url Rest) → Outcome
  start method none = exits 1
  start method (some url) = visits method url

  abbrev with_args : Flags → List Text → Outcome
  with_args flags [] = exits 2
  with_args flags (a ∷ b ∷ args) = exits 2
  with_args flags (a ∷ []) =
      if needs_body flags.http_method && flags.post_body =ₜ []
      then exits 1
      else start (if flags.only_header then codes "HEAD" else flags.http_method) (parse_url a)

  -- main after flag.Parse; a status of -1 is 255 to the shell, and log.Fatal exits with 1.
  unfoldable pub main : Flags → List Text → Outcome
  main flags args =
      if flags.show_version
      then exits 0
      else if flags.four_only && flags.six_only
      then exits 255
      else with_args flags args
