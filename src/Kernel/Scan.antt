-- ===== src/Kernel/Scan.antt =====
-- The verbs of Go's fmt.Sscanf that ParseRelease uses, on ASCII input: %d, %s and a literal dot.
use conniver.Prelude.{
  ℕ, zero, suc, ◌^◌, Bool, true, false, not, Option, none, some, [], ◌∷◌, ℤ, pos, negsuc, ltb, leb,
  ◌==◌, if◌then◌else◌,
}
use conniver.Prelude.Text.{Text, is_digit, is_space, span}
use conniver.Prelude.Decimal.{value_from}

-- SkipSpace, where a newline is no space: `none` is its "unexpected newline". A `\r` before the
-- newline is skipped first, with the same end.
unfoldable pub skip_space : Text → Option Text
skip_space [] = some []
skip_space (c ∷ s) =
    let rest = skip_space s in if c == 10 then none else if is_space c then rest else some (c ∷ s)

abbrev pub negate : ℕ → ℤ
negate zero = pos 0
negate (suc n) = negsuc n

-- strconv.ParseInt of a token to 64 bits, given the sign and the digits; `none` is its error.
unfoldable pub parse_int : Bool → Text → Option ℤ
parse_int minus [] = none
parse_int minus (c ∷ s) =
    let n = value_from 0 (c ∷ s) in
    if minus
    then (if leb n (2 ^ 63) then some (negate n) else none)
    else (if ltb n (2 ^ 63) then some (pos n) else none)

-- scanInt after the sign
unfoldable pub scan_number : Bool → Text → Option (ℤ × Text)
unfolding parse_int
scan_number minus s = elim (parse_int minus (span is_digit s).0) [
  | none ↦ none
  | some i ↦ some (i, (span is_digit s).1)
]

-- The optional sign.
unfoldable pub scan_signed : Text → Option (ℤ × Text)
unfolding scan_number
scan_signed [] = none
scan_signed (c ∷ s) =
    if c == b'-'
    then scan_number true s
    else if c == b'+'
    then scan_number false s
    else scan_number false (c ∷ s)

-- %d
unfoldable pub scan_int : Text → Option (ℤ × Text)
unfolding scan_signed skip_space
scan_int s = elim (skip_space s) [ none ↦ none | some t ↦ scan_signed t ]

-- The token of %s; there must be a character left.
unfoldable pub scan_token : Text → Option (Text × Text)
scan_token [] = none
scan_token (c ∷ s) = some (span (λ d. not (is_space d)) (c ∷ s))

-- %s
unfoldable pub scan_string : Text → Option (Text × Text)
unfolding scan_token skip_space
scan_string s = elim (skip_space s) [ none ↦ none | some t ↦ scan_token t ]

-- A literal `.` of the format.
unfoldable pub scan_dot : Text → Option Text
scan_dot [] = none
scan_dot (c ∷ s) = if c == b'.' then some s else none

-- What a scan leaves in its variables: how many it has set, and their values, zero if not set.
pub record Scanned : Type 0 where
  pub parsed : ℕ
  pub kernel : ℤ
  pub major : ℤ
  pub partial : Text

abbrev unset : Scanned
unset = record { parsed = 0; kernel = pos 0; major = pos 0; partial = [] }

-- fmt.Sscanf(release, "%d.%d%s", &kernel, &major, &partial)
unfoldable pub sscanf_release : Text → Scanned
sscanf_release s = elim (scan_int s) [
  | none ↦ unset
  | some (k, s1) ↦ elim (scan_dot s1) [
    | none ↦ record unset { parsed = 1; kernel = k }
    | some s2 ↦ elim (scan_int s2) [
      | none ↦ record unset { parsed = 1; kernel = k }
      | some (m, s3) ↦ elim (scan_string s3) [
        | none ↦ record unset { parsed = 2; kernel = k; major = m }
        | some (p, _) ↦ record { parsed = 3; kernel = k; major = m; partial = p }
      ]
    ]
  ]
]

-- fmt.Sscanf(partial, ".%d%s", &minor, &flavor): the number set, the minor and the flavor
unfoldable pub sscanf_partial : Text → ℕ × ℤ × Text
sscanf_partial s = elim (scan_dot s) [
  | none ↦ (0, pos 0, [])
  | some s1 ↦ elim (scan_int s1) [
    | none ↦ (0, pos 0, [])
    | some (m, s2) ↦ elim (scan_string s2) [ none ↦ (1, m, []) | some (f, _) ↦ (2, m, f) ]
  ]
]
