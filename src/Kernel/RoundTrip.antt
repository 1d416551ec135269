-- ===== src/Kernel/RoundTrip.antt =====
-- ParseRelease reads back what String prints.
use conniver.Prelude.{
  ok, ℕ, ◌^◌, ◌<◌, ◌≡◌, refl, sym, ap, ◌∙◌, Bool, true, false, not, some, [], ◌∷◌, ◌++◌, pos, arith,
  all, all-append, ltb,
}
use conniver.Prelude.Text.{Text, is_digit, is_space, span, starts_not}
use conniver.Prelude.Decimal.{
  decimal, decimal_ℤ, decimal-cons, decimal-all, value_from, value_from-decimal, span-append,
}
use conniver.Kernel.Scan.{
  skip_space, parse_int, scan_number, scan_signed, scan_int, scan_token, scan_string, scan_dot,
  sscanf_release, sscanf_partial,
}
use conniver.Kernel.Version.{VersionInfo, string}
use conniver.Kernel.Release.{with_partial, parse_release}

parse_int-decimal : (n : ℕ) → n < 2 ^ 63 → parse_int false (decimal n) ≡ some (pos n)
unfolding parse_int
parse_int-decimal n h =
    let (c, s, e) = decimal-cons n in
    let v : value_from 0 (c ∷ s) ≡ n = ap (value_from 0) (sym e) ∙ value_from-decimal n in
    rw e (rw v (ground arith))

scan_number-decimal :
    (n : ℕ) (t : Text)
    → n < 2 ^ 63
    → starts_not is_digit t ≡ true
    → scan_number false (decimal n ++ t) ≡ some (pos n, t)
unfolding scan_number
scan_number-decimal n t h k =
    ground (arith, span-append is_digit (decimal n) t (decimal-all n) k, parse_int-decimal n h)

-- A digit is neither a space nor a sign.
scan_int-digit :
    (c : ℕ) (s : Text) → is_digit c ≡ true → scan_int (c ∷ s) ≡ scan_number false (c ∷ s)
unfolding skip_space scan_signed scan_int
scan_int-digit c s h = ground arith

scan_int-decimal :
    (n : ℕ) (t : Text)
    → n < 2 ^ 63
    → starts_not is_digit t ≡ true
    → scan_int (decimal n ++ t) ≡ some (pos n, t)
scan_int-decimal n t h k =
    let (c, s, e) = decimal-cons n in
    let d : all is_digit (c ∷ s) ≡ true = ap (all is_digit) (sym e) ∙ decimal-all n in
    let q : scan_int (decimal n ++ t) ≡ scan_number false (decimal n ++ t) =
      rw e (scan_int-digit c (s ++ t) (ground arith)) in
    q ∙ scan_number-decimal n t h k

-- A flavor that is scanned whole: no space in it.
abbrev pub IsWord : Text → Type 0
IsWord s = all (λ d. not (is_space d)) s ≡ true

span_whole : (p : ℕ → Bool) (s : Text) → all p s ≡ true → span p s ≡ (s, [])
span_whole p [] h = refl
span_whole p (c ∷ s) h = ground (arith, span_whole p s)

scan_string-word : (c : ℕ) (s : Text) → IsWord (c ∷ s) → scan_string (c ∷ s) ≡ some (c ∷ s, [])
unfolding skip_space scan_token scan_string
scan_string-word c s h = ground (arith, span_whole (λ d. not (is_space d)) s)

all_weaken :
    (p q : ℕ → Bool)
    → ((c : ℕ) → p c ≡ true → q c ≡ true)
    → (s : Text) → all p s ≡ true
    → all q s ≡ true
all_weaken p q imp [] h = refl
all_weaken p q imp (c ∷ s) h = ground (arith, imp c, all_weaken p q imp s)

decimal-IsWord : (n : ℕ) → IsWord (decimal n)
decimal-IsWord n =
    all_weaken is_digit (λ d. not (is_space d)) (λ c h. ground arith) (decimal n) (decimal-all n)

-- What String prints from the second dot on.
after_major : ℕ → Text → Text
after_major n f = b'.' ∷ (decimal n ++ f)

after_major-scan :
    (n : ℕ) (f : Text) → IsWord f → scan_string (after_major n f) ≡ some (after_major n f, [])
unfolding after_major
after_major-scan n f h =
    scan_string-word b'.' (decimal n ++ f)
      (all-append (λ d. not (is_space d)) (decimal n) f (decimal-IsWord n) h)

sscanf_release_printed :
    (k m n : ℕ) (f : Text)
    → k < 2 ^ 63
    → m < 2 ^ 63
    → IsWord f
    → sscanf_release (decimal k ++ (b'.' ∷ (decimal m ++ after_major n f)))
      ≡ record { parsed = 3; kernel = pos k; major = pos m; partial = after_major n f }
unfolding sscanf_release scan_dot after_major
sscanf_release_printed k m n f hk hm hf = ground (
  arith,
  scan_int-decimal k (b'.' ∷ (decimal m ++ after_major n f)) hk refl,
  scan_int-decimal m (after_major n f) hm refl,
  after_major-scan n f hf,
)

-- The minor is read back; the flavor is read whole, also where it is empty.
sscanf_partial_printed :
    (n : ℕ) (f : Text)
    → n < 2 ^ 63
    → IsWord f
    → starts_not is_digit f ≡ true
    → ((sscanf_partial (after_major n f)).1 ≡ pos n)
      × ((sscanf_partial (after_major n f)).2 ≡ f)
      × (ltb (sscanf_partial (after_major n f)).0 1 ≡ false)
unfolding sscanf_partial scan_dot after_major scan_string skip_space
sscanf_partial_printed n [] hn hf hs = ground (arith, scan_int-decimal n [] hn refl)
sscanf_partial_printed n (c ∷ f) hn hf hs =
    ground (arith, scan_int-decimal n (c ∷ f) hn hs, scan_string-word c f hf)

-- What String prints of a version whose numbers are naturals in int64 range and whose flavor has
-- no space and does not begin with a digit, ParseRelease reads back as the same version.
pub parse_release-string :
    (k m n : ℕ) (f : Text)
    → k < 2 ^ 63
    → m < 2 ^ 63
    → n < 2 ^ 63
    → IsWord f
    → starts_not is_digit f ≡ true
    → let v : VersionInfo = record { kernel = pos k; major = pos m; minor = pos n; flavor = f } in
      parse_release (string v) ≡ ok v
unfolding string decimal_ℤ parse_release with_partial after_major
parse_release-string k m n f hk hm hn hf hs =
    ground (arith, sscanf_release_printed k m n f hk hm hf, sscanf_partial_printed n f hn hf hs)
