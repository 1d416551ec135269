-- ===== src/HttpStat/Request.antt =====
-- cmd/httpstat/main.go: newRequest. http.NewRequest, os.Open and the canonical form of a header's name
-- are parameters.
use conniver.Prelude.{
  ℕ, ◌+◌, Bool, true, false, ◌&&◌, Option, none, some, List, [], ◌∷◌, ◌++◌, leb, ◌==◌,
  if◌then◌else◌,
}
use conniver.Prelude.Text.{Text, codes}
use conniver.HttpStat.Headers.{header_key_value}
use conniver.HttpStat.Start.{Url, create_body}

-- Simple case folding, of the characters that fold to ASCII letters.
abbrev fold : ℕ → ℕ
fold c =
    if leb b'A' c && leb c b'Z'
    then c + 32
    else if c == 383
    then b's'
    else if c == 8490
    then b'k'
    else c

-- strings.EqualFold, against ASCII
abbrev pub equal_fold : Text → Text → Bool
equal_fold [] [] = true
equal_fold [] (d ∷ t) = false
equal_fold (c ∷ s) [] = false
equal_fold (c ∷ s) (d ∷ t) = fold c == fold d && equal_fold s t

-- What newRequest sets of an http.Request, and what it leaves.
pub record Request (Rest : Type 0) : Type 0 where
  pub method : Text
  pub host : Text
  pub header : List (Text × Text)
  pub body : Text
  pub other : Rest

abbrev pub is_host : Text × Text → Bool
is_host (k, v) = equal_fold k (codes "host")

module _ {Rest : Type 0} (canonical : Text → Text) where
  -- One round of the loop, with the key and the value.
  abbrev pub add_header : Text × Text → Request Rest → Request Rest
  add_header (k, v) req =
      if is_host (k, v)
      then record req { host = v }
      else record req { header = req.header ++ (canonical k, v) ∷ [] }

  abbrev pub add_pair :
      Option (Text × Text)
      → Request Rest
      → (Request Rest → Option (Request Rest))
      → Option (Request Rest)
  add_pair none req next = none
  add_pair (some pair) req next = next (add_header pair req)

  -- The loop over the headers of the command line; `none` is log.Fatalf.
  unfoldable pub add_headers : List Text → Request Rest → Option (Request Rest)
  add_headers [] req = some req
  add_headers (h ∷ hs) req = add_pair (header_key_value h) req (add_headers hs)

  abbrev made : List Text → Option (Request Rest) → Option (Request Rest)
  made headers none = none
  made headers (some req) = add_headers headers req

  abbrev with_body :
      (Text → Option (Request Rest)) → List Text → Option Text → Option (Request Rest)
  with_body make headers none = none
  with_body make headers (some body) = made headers (make body)

  -- newRequest: `make method url body` is what http.NewRequest answers for the printed URL.
  unfoldable pub new_request :
      {R : Type 0} (make : Text → Url R → Text → Option (Request Rest))
      → (Text → Option Text)
      → List Text
      → Text
      → Url R
      → Text
      → Option (Request Rest)
  new_request make open_file headers method url body =
      with_body (make method url) headers (create_body open_file body)
