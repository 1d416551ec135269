-- ===== src/HttpStat/Run.antt =====
-- cmd/httpstat/main.go: the whole command, from main over every visit to the status that it exits with.
use conniver.Prelude.{
  ℕ, zero, suc, ◌+◌, ◌≤◌, ◌<◌, ◌≡◌, refl, Bool, true, false, ◌&&◌, Option, none, some, is_some,
  List, [], ◌∷◌, ltb, if◌then◌else◌, length, inl, inr, Bool-cases, arith,
}
use conniver.Prelude.Text.{Text, codes, ◌=ₜ◌}
use conniver.Wrap.World.{World}
use conniver.Wrap.Conn.{Conn}
use conniver.HttpStat.Start.{Url, Flags, Outcome, exits, visits, main}
use conniver.HttpStat.Certificates.{
  Block, Loaded, is_stuck, read_client_cert, read_client_cert-ends,
}
use conniver.HttpStat.Output.{is_redirect}
use conniver.HttpStat.Redirects.{
  Location, no_location, bad_location, location, max_redirects, Ending, returned, unable, too_many,
  out_of_fuel,
}
use conniver.HttpStat.Request.{Request, new_request}
use conniver.HttpStat.Connection.{TlsConfig, network, tls_config, get_conniver}
use conniver.HttpStat.Visit.{Response, Exchange, Print, visit_page}

-- How the visits end: as Ending says, or in log.Fatalf before the redirect.
pub data Finish : Type 0 where
  ended : Ending → Finish
  failed : Finish

-- `none` is the end of the fuel.
abbrev pub exit_status : Finish → Option ℕ
exit_status (ended returned) = some 0
exit_status (ended unable) = some 1
exit_status (ended too_many) = some 1
exit_status (ended out_of_fuel) = none
exit_status failed = some 1

-- What the command calls: url.Parse, http.NewRequest, the canonical form of a header's name, os.Open,
-- net.SplitHostPort, pem.Decode, os.ReadFile, tls.X509KeyPair, client.Do with all that happens during
-- it, and resp.Location. The last two may depend on the number of redirects.
pub record Outside (W : World) (R Rest Cert : Type 0) : Type 0 where
  pub parse : Text → Option (Url R)
  pub make : Text → Url R → Text → Option (Request Rest)
  pub canonical : Text → Text
  pub open_file : Text → Option Text
  pub split : Text → Option Text
  pub decode : Text → Option (Block × Text)
  pub read_file : Text → Option Text
  pub key_pair : Text → Text → Option Cert
  pub exchange : ℕ → Text → Option (TlsConfig (Loaded Cert)) → Request Rest → Url R → Exchange W
  pub location_of : ℕ → Url R → Location (Url R)

module _ (W : World) {R Rest Cert : Type 0} (duration_string : ℕ → Text) (flags : Flags)
    (O : Outside W R Rest Cert) where
  abbrev Pages : Type 0
  Pages = List (List (Print W)) × Finish

  abbrev redirects : Option Response → Bool
  redirects none = false
  redirects (some resp) = is_redirect resp.status_code

  abbrev next_page : List (Print W) → ℕ → Location (Url R) → (Url R → Pages) → Pages
  next_page prints followed no_location next = (prints ∷ [], ended returned)
  next_page prints followed bad_location next = (prints ∷ [], ended unable)
  next_page prints followed (location loc) next =
      if ltb max_redirects (followed + 1)
      then (prints ∷ [], ended too_many)
      else (prints ∷ (next loc).0, (next loc).1)

  abbrev after_page : List (Print W) × Bool → Bool → ℕ → Location (Url R) → (Url R → Pages) → Pages
  after_page (prints, false) redirected followed l next = (prints ∷ [], failed)
  after_page (prints, true) redirected followed l next =
      if flags.follow_redirects && redirected
      then next_page prints followed l next
      else (prints ∷ [], ended returned)

  abbrev certs : Loaded Cert
  certs = read_client_cert O.decode O.read_file O.key_pair flags.client_cert_file

  -- What client.Do is given, and what it answers.
  abbrev answer : ℕ → Request Rest → Url R → Exchange W
  answer followed req url =
      O.exchange followed (network flags) (tls_config flags O.split certs url.scheme req.host) req
        url

  abbrev never_reads : Url R → Bool
  never_reads url = url.scheme =ₜ codes "https" && is_stuck certs

  -- visit after newRequest, which ends in log.Fatalf or gives the request.
  abbrev with_request :
      Option (Request Rest)
      → ℕ
      → Option (Conn W)
      → Url R
      → (Option (Conn W) → Url R → Pages)
      → Pages
  with_request none followed old url next = ([] ∷ [], failed)
  with_request (some req) followed old url next =
      if never_reads url
      then ([] ∷ [], ended out_of_fuel)
      else (let ex = answer followed req url in
          after_page (visit_page W duration_string flags certs url.scheme old (some req) ex)
            (redirects ex.response) followed (O.location_of followed url)
            (next (get_conniver W old ex.reports)))

  -- visit and the visits that it makes, on fuel: a page for each.
  unfoldable pub run : Text → ℕ → ℕ → Option (Conn W) → Url R → Pages
  run method zero followed old url = ([], ended out_of_fuel)
  run method (suc fuel) followed old url =
      with_request
        (new_request O.canonical O.make O.open_file flags.http_headers method url flags.post_body)
        followed old url (run method fuel (followed + 1))

  abbrev of_outcome : Outcome O.parse → List (List (Print W)) × Option ℕ
  of_outcome (exits n) = ([], some n)
  of_outcome (visits method url) =
      let (pages, finish) = run method 11 0 none url in (pages, exit_status finish)

  -- The command: the pages, and the status.
  unfoldable pub command : List Text → List (List (Print W)) × Option ℕ
  command args = of_outcome (main O.parse flags args)

  -- There is an end, and the pages are within the bound.
  abbrev IsBounded : ℕ → Pages → Type 0
  IsBounded followed pages =
      (is_some (exit_status pages.1) ≡ true) × (length pages.0 + followed ≤ max_redirects + 1)

  next_page-IsBounded :
      (prints : List (Print W)) (followed : ℕ) (l : Location (Url R)) (next : Url R → Pages)
      → followed ≤ max_redirects
      → ((loc : Url R) → followed + 1 ≤ max_redirects → IsBounded (followed + 1) (next loc))
      → IsBounded followed (next_page prints followed l next)
  next_page-IsBounded prints followed no_location next h k = (refl, omega arith)
  next_page-IsBounded prints followed bad_location next h k = (refl, omega arith)
  next_page-IsBounded prints followed (location loc) next h k =
      elim (Bool-cases (ltb max_redirects (followed + 1))) [
        | inl e ↦ rw e (refl, omega arith)
        | inr e ↦ let (ends, few) = k loc (ground arith) in rw e (ends, omega (arith, few))
      ]

  after_page-IsBounded :
      (page : List (Print W) × Bool) (redirected : Bool) (followed : ℕ) (l : Location (Url R))
      (next : Url R → Pages)
      → followed ≤ max_redirects
      → ((loc : Url R) → followed + 1 ≤ max_redirects → IsBounded (followed + 1) (next loc))
      → IsBounded followed (after_page page redirected followed l next)
  after_page-IsBounded (prints, false) redirected followed l next h k = (refl, omega arith)
  after_page-IsBounded (prints, true) redirected followed l next h k =
      elim (Bool-cases (flags.follow_redirects && redirected)) [
        | inl e ↦ rw e (next_page-IsBounded prints followed l next h k)
        | inr e ↦ rw e (refl, omega arith)
      ]

  module _ (reads : is_stuck certs ≡ false) where
    with_request-IsBounded :
        (req : Option (Request Rest)) (followed : ℕ) (old : Option (Conn W)) (url : Url R)
        (next : Option (Conn W) → Url R → Pages)
        → followed ≤ max_redirects
        → ((c : Option (Conn W)) (loc : Url R)
            → followed + 1 ≤ max_redirects
            → IsBounded (followed + 1) (next c loc))
        → IsBounded followed (with_request req followed old url next)
    with_request-IsBounded none followed old url next h k = (refl, omega arith)
    with_request-IsBounded (some req) followed old url next h k =
        elim (Bool-cases (never_reads url)) [
          | inl e ↦ absurd (ground (arith, e, reads))
          | inr e ↦ rw e (after_page-IsBounded _ _ followed _ _ h (k _))
        ]

    run-IsBounded :
        (method : Text) (fuel followed : ℕ) (old : Option (Conn W)) (url : Url R)
        → followed ≤ max_redirects
        → max_redirects < followed + fuel
        → IsBounded followed (run method fuel followed old url)
    unfolding run
    run-IsBounded method zero followed old url h k = absurd (omega arith)
    run-IsBounded method (suc fuel) followed old url h k =
        with_request-IsBounded _ followed old url _ h
          (λ c loc b. run-IsBounded method fuel (followed + 1) c loc b (omega arith))

    of_outcome-ends :
        (o : Outcome O.parse) → (is_some (of_outcome o).1 ≡ true) × (length (of_outcome o).0 ≤ 11)
    of_outcome-ends (exits n) = (refl, omega arith)
    of_outcome-ends (visits method url) =
        let (ends, few) = run-IsBounded method 11 0 none url (omega arith) (omega arith) in
        (ends, omega (arith, few))

  -- The command ends, where each block is taken off the data of the client certificate: whatever its
  -- arguments are, and whatever the network, the servers and the file system answer, it makes at most
  -- eleven visits and exits with a status.
  pub command-ends :
      ((bytes : Text) (b : Block) (rest : Text)
        → O.decode bytes ≡ some (b, rest)
        → length rest < length bytes)
      → (args : List Text) → (is_some (command args).1 ≡ true) × (length (command args).0 ≤ 11)
  unfolding command
  command-ends shorter args =
      of_outcome-ends
        (read_client_cert-ends O.decode shorter O.read_file O.key_pair flags.client_cert_file)
        (main O.parse flags args)
