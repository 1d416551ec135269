-- ===== src/HttpStat/Output.antt =====
-- cmd/httpstat/main.go: what readResponseBody does with a body, up to the copying.
use conniver.Prelude.{
  ℕ, Bool, ◌&&◌, ◌||◌, Option, none, some, [], ◌∷◌, ◌++◌, ltb, ◌==◌, if◌then◌else◌,
}
use conniver.Prelude.Text.{Text, codes, ◌=ₜ◌, trim_right}

-- The text behind the last slash.
abbrev pub last_element : Text → Text → Text
last_element acc [] = acc
last_element acc (c ∷ s) = if c == b'/' then last_element [] s else last_element (acc ++ c ∷ []) s

abbrev pub or_slash : Text → Text
or_slash [] = codes "/"
or_slash (c ∷ s) = c ∷ s

-- path.Base
unfoldable pub base : Text → Text
base [] = codes "."
base (c ∷ s) = or_slash (last_element [] (trim_right (λ d. d == b'/') (c ∷ s)))

-- What mime.ParseMediaType makes of a header: the media type and the parameter filename, empty where
-- it is missing.
abbrev pub Parsed : Type 0
Parsed = Option (Text × Text)

abbrev attached : Parsed → Text
attached none = []
attached (some (mt, filename)) = if mt =ₜ codes "attachment" then filename else []

-- getFilenameFromHeaders, from the header and what it parses to
unfoldable pub get_filename_from_headers : Text → Parsed → Text
get_filename_from_headers hdr parsed = if hdr =ₜ [] then [] else attached parsed

unfoldable pub is_redirect : ℕ → Bool
is_redirect status = ltb 299 status && ltb status 400

-- What is done with the body: nothing, discarded, written to a file of the name, or log.Fatalf.
pub data Body : Type 0 where
  skipped : Body
  discarded : Body
  written : Text → Body
  fatal : Body

abbrev pub is_refused : Text → Bool
is_refused filename = filename =ₜ codes "/" || (filename =ₜ codes "." || filename =ₜ codes "..")

-- The name that is found for -O: from the header, else from the URI of the request.
unfoldable pub remote_filename : Text → Parsed → Text → Text
remote_filename hdr parsed uri =
    let filename = base (get_filename_from_headers hdr parsed) in
    if filename =ₜ codes "." then base uri else filename

-- readResponseBody: the status, whether the method is HEAD, -O, -o, the header Content-Disposition
-- with its parse, and the URI.
unfoldable pub read_response_body : ℕ → Bool → Bool → Text → Text → Parsed → Text → Body
read_response_body status head save_output output_file hdr parsed uri =
    if is_redirect status || head
    then skipped
    else if save_output
    then (let filename = remote_filename hdr parsed uri in
        if is_refused filename then fatal else written filename)
    else if output_file =ₜ []
    then discarded
    else written output_file

-- The message that readResponseBody returns, from whether os.Create and io.Copy succeed: `none` is
-- log.Fatalf. An error of discarding is ignored.
unfoldable pub body_message : Bool → Bool → Body → Option Text
body_message created copied skipped = some []
body_message created copied discarded = some (codes "Body discarded")
body_message created copied (written name) =
    if created && copied then some (codes "Body read") else none
body_message created copied fatal = none
