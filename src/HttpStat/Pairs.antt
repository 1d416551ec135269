-- ===== src/HttpStat/Pairs.antt =====
-- The headers of a request, against their split into keys and values.
use conniver.Prelude.{
  ◌≡◌, refl, Bool, true, not, ◌||◌, Option, none, some, List, [], ◌∷◌, ◌++◌, ◌==◌, if◌then◌else◌,
  all, arith,
}
use mathlib.Core.List.{map}
use conniver.Prelude.Text.{Text, trim_left, trim_right}
use conniver.Prelude.Decimal.{span-append}
use conniver.HttpStat.Headers.{header_key_value}
use conniver.HttpStat.Request.{Request, is_host}

no_colon :
    (s : Text)
    → all (λ c. not (c == b':' || c == b' ')) s ≡ true
    → all (λ c. not (c == b':')) s ≡ true
no_colon [] h = refl
no_colon (c ∷ s) h = ground (arith, no_colon s)

-- Nothing is trimmed of a key without spaces.
unspaced :
    (s : Text)
    → all (λ c. not (c == b':' || c == b' ')) s ≡ true
    → trim_right (λ d. d == b' ') s ≡ s
unspaced [] h = refl
unspaced (c ∷ []) h = ground arith
unspaced (c ∷ d ∷ s) h = rw (unspaced (d ∷ s) (ground arith)) refl

-- headerKeyValue gives back a key without colons and spaces that is written before a colon, and of
-- what is written behind the colon all but the spaces and the colons at its beginning.
pub header_key_value-colon :
    (key value : Text)
    → all (λ c. not (c == b':' || c == b' ')) key ≡ true
    → header_key_value (key ++ b':' ∷ value)
      ≡ some (key, trim_left (λ d. d == b' ' || d == b':') value)
unfolding header_key_value
header_key_value-colon key value h =
    rw (span-append (λ c. not (c == b':')) key (b':' ∷ value) (no_colon key h) refl)
      (rw (unspaced key h) refl)

-- The headers of the command line, split.
abbrev pub and_pair :
    Option (Text × Text) → Option (List (Text × Text)) → Option (List (Text × Text))
and_pair none rest = none
and_pair (some pair) none = none
and_pair (some pair) (some rest) = some (pair ∷ rest)

abbrev pub split_headers : List Text → Option (List (Text × Text))
split_headers [] = some []
split_headers (h ∷ hs) = and_pair (header_key_value h) (split_headers hs)

abbrev pub select : (Text × Text → Bool) → List (Text × Text) → List (Text × Text)
select p [] = []
select p (a ∷ ps) = if p a then a ∷ select p ps else select p ps

-- The value of the last pair, or the default.
abbrev pub last_value : Text → List (Text × Text) → Text
last_value d [] = d
last_value d ((k, v) ∷ ps) = last_value v ps

abbrev pub canonical_pair : (Text → Text) → Text × Text → Text × Text
canonical_pair canonical (k, v) = (canonical k, v)

module _ {Rest : Type 0} (canonical : Text → Text) where
  abbrev pub with_pairs : Option (List (Text × Text)) → Request Rest → Option (Request Rest)
  with_pairs none req = none
  with_pairs (some pairs) req = some (record req {
    host = last_value req.host (select is_host pairs);
    header = req.header ++ map (canonical_pair canonical) (select (λ p. not (is_host p)) pairs);
  })
