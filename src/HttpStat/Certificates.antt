-- ===== src/HttpStat/Certificates.antt =====
-- cmd/httpstat/main.go: readClientCert. pem.Decode, pem.EncodeToMemory, os.ReadFile and
-- tls.X509KeyPair are parameters.
use conniver.Prelude.{
  ℕ, zero, suc, ◌+◌, ◌<◌, ◌≡◌, refl, ◌∙◌, Bool, true, false, Option, none, some, List, [], ◌∷◌,
  length, if◌then◌else◌, arith, Bool-cases, Option-cases, inl, inr,
}
use mathlib.Core.Path.{ap₂}
use conniver.Prelude.Text.{Text, codes, ◌=ₜ◌, has_suffix}

-- The type of a pem.Block, and what pem.EncodeToMemory makes of the block.
pub record Block : Type 0 where
  pub kind : Text
  pub encoding : Text

-- No file is named, log.Fatalf, or the pair that was read.
pub data Loaded (Cert : Type 0) : Type 0 where
  no_file : Loaded Cert
  fatal : Loaded Cert
  loaded : Cert → Loaded Cert
  out_of_fuel : Loaded Cert

-- The run has not ended in log.Fatalf.
abbrev pub is_usable : {Cert : Type 0} → Loaded Cert → Bool
is_usable no_file = true
is_usable (loaded cert) = true
is_usable _ = false

-- The loop over the blocks has not ended.
abbrev pub is_stuck : {Cert : Type 0} → Loaded Cert → Bool
is_stuck out_of_fuel = true
is_stuck _ = false

abbrev pub is_key : Block → Bool
is_key b = has_suffix (b.kind) (codes "PRIVATE KEY")

abbrev pub is_cert : Block → Bool
is_cert b = has_suffix (b.kind) (codes "CERTIFICATE")

abbrev pub kept : (Block → Bool) → Block → Text → Text
kept p b old = if p b then b.encoding else old

-- The last block of a kind.
abbrev pub last_with : (Block → Bool) → List Block → Option Block
last_with p [] = none
last_with p (b ∷ bs) = elim (last_with p bs) [
  | some c ↦ some c
  | none ↦ if p b then some b else none
]

abbrev pub encoded : Text → Option Block → Text
encoded old none = old
encoded old (some b) = b.encoding

last_with-cons :
    (p : Block → Bool) (b : Block) (bs : List Block) (old : Text)
    → encoded (kept p b old) (last_with p bs) ≡ encoded old (last_with p (b ∷ bs))
last_with-cons p b bs old = elim (Option-cases (last_with p bs)) [
  | inl e ↦ elim (Bool-cases (p b)) [ inl q ↦ rw (e, q) refl | inr q ↦ rw (e, q) refl ]
  | inr (c, e) ↦ rw e refl
]

module _ (decode : Text → Option (Block × Text)) where
  abbrev pub found :
      Option (Block × Text)
      → Text
      → Text
      → (Text → Text → Text → Option (Text × Text))
      → Option (Text × Text)
  found none key cert next = some (key, cert)
  found (some (b, rest)) key cert next = next rest (kept is_key b key) (kept is_cert b cert)

  -- The loop, on fuel: the last private key and the last certificate. `none` is the end of the fuel.
  unfoldable pub find_pems : ℕ → Text → Text → Text → Option (Text × Text)
  find_pems zero bytes key cert = none
  find_pems (suc fuel) bytes key cert = found (decode bytes) key cert (find_pems fuel)

  module _ {Cert : Type 0} (read_file : Text → Option Text)
      (key_pair : Text → Text → Option Cert) where
    abbrev of_pair : Option Cert → Loaded Cert
    of_pair none = fatal
    of_pair (some cert) = loaded cert

    abbrev of_pems : Option (Text × Text) → Loaded Cert
    of_pems none = out_of_fuel
    of_pems (some (key, cert)) = of_pair (key_pair cert key)

    abbrev of_file : Option Text → Loaded Cert
    of_file none = fatal
    of_file (some bytes) = of_pems (find_pems (length bytes + 1) bytes [] [])

    unfoldable pub read_client_cert : Text → Loaded Cert
    read_client_cert filename = if filename =ₜ [] then no_file else of_file (read_file filename)

  -- The blocks of a file, one after the other.
  pub data Blocks : Text → List Block → Type 0 where
    no_more : {bytes : Text} → decode bytes ≡ none → Blocks bytes []
    one_more :
        {bytes : Text} {b : Block} {rest : Text} {bs : List Block}
        → decode bytes ≡ some (b, rest)
        → Blocks rest bs
        → Blocks bytes (b ∷ bs)

  module _
      (shorter : (bytes : Text) (b : Block) (rest : Text)
        → decode bytes ≡ some (b, rest)
        → length rest < length bytes) where
    -- The loop ends, with a fuel of more than the length of the data, where each block is taken off
    -- the data: it has gone through all the blocks, and it has kept the last one whose type ends in
    -- PRIVATE KEY and the last one whose type ends in CERTIFICATE.
    pub find_pems-last :
        (fuel : ℕ) (bytes key cert : Text)
        → length bytes < fuel
        → (bs : List Block) × Blocks bytes bs
          × (find_pems fuel bytes key cert
              ≡ some (encoded key (last_with is_key bs), encoded cert (last_with is_cert bs)))
    unfolding find_pems
    find_pems-last zero bytes key cert h = absurd (omega arith)
    find_pems-last (suc fuel) bytes key cert h = elim (Option-cases (decode bytes)) [
      | inl e ↦ ([], no_more e, rw e refl)
      | inr ((b, rest), e) ↦
          let (bs, blocks, q) =
            find_pems-last fuel rest (kept is_key b key) (kept is_cert b cert)
              (omega (arith, shorter bytes b rest e)) in
          (
            b ∷ bs,
            one_more e blocks,
            rw e (
                q
                ∙ ap₂ (λ x y. some (x, y)) (last_with-cons is_key b bs key)
                    (last_with-cons is_cert b bs cert)),
          )
    ]

    module _ {Cert : Type 0} (read_file : Text → Option Text)
        (key_pair : Text → Text → Option Cert) where
      of_pair-ends : (o : Option Cert) → is_stuck (of_pair read_file key_pair o) ≡ false
      of_pair-ends none = refl
      of_pair-ends (some cert) = refl

      of_file-ends : (o : Option Text) → is_stuck (of_file read_file key_pair o) ≡ false
      of_file-ends none = refl
      of_file-ends (some bytes) =
          let (bs, blocks, q) = find_pems-last (length bytes + 1) bytes [] [] (omega arith) in
          rw q (of_pair-ends _)

      -- readClientCert ends, too.
      pub read_client_cert-ends :
          (filename : Text) → is_stuck (read_client_cert read_file key_pair filename) ≡ false
      unfolding read_client_cert
      read_client_cert-ends filename = elim (Bool-cases (filename =ₜ [])) [
        | inl e ↦ rw e refl
        | inr e ↦ rw e (of_file-ends (read_file filename))
      ]
