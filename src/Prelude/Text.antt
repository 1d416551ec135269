-- ===== src/Prelude/Text.antt =====
-- Go strings as lists of character codes (ASCII bytes), which the sources walk.
use Prim.Native.Nat.{ℕ}
use Prim.Native.Char.{code}
use Prim.Native.String.{String}
use mathlib.Core.Path.{◌≡◌, refl}
use mathlib.Core.Bool.{Bool, true, false, ◌&&◌, ◌||◌, not}
use mathlib.Core.Option.{Option, none, some}
use mathlib.Core.List.{List, [], ◌∷◌}
use native.Mathlib.Omega.{arith}
use conniver.Prelude.Tests.{ltb, leb, ◌==◌, if◌then◌else◌}

abbrev pub Text : Type 0
Text = List ℕ

-- The codes of a literal. `String` has its own `[]` and `∷`.
abbrev pub codes : String → Text
codes String.[] = []
codes (String.◌∷◌ c s) = code c ∷ codes s

abbrev pub is_digit : ℕ → Bool
is_digit c = leb b'0' c && leb c b'9'

-- `fmt`'s isSpace and `unicode.IsSpace` on ASCII.
abbrev pub is_space : ℕ → Bool
is_space c = c == 32 || (leb 9 c && leb c 13)

-- `unix.ByteSliceToString`: up to the first NUL.
abbrev pub up_to_nul : Text → Text
up_to_nul [] = []
up_to_nul (c ∷ s) = if c == 0 then [] else c ∷ up_to_nul s

infix 50 ◌=ₜ◌
abbrev pub ◌=ₜ◌ : Text → Text → Bool
[] =ₜ [] = true
[] =ₜ (d ∷ ds) = false
(c ∷ cs) =ₜ [] = false
(c ∷ cs) =ₜ (d ∷ ds) = c == d && cs =ₜ ds

pub =ₜ_refl : (s : Text) → (s =ₜ s) ≡ true
=ₜ_refl [] = refl
=ₜ_refl (c ∷ s) = ground (arith, =ₜ_refl s)

pub =ₜ_sound : (s t : Text) → (s =ₜ t) ≡ true → s ≡ t
=ₜ_sound [] [] h = refl
=ₜ_sound [] (d ∷ t) h = ground arith
=ₜ_sound (c ∷ s) [] h = ground arith
=ₜ_sound (c ∷ s) (d ∷ t) h = ground (arith, =ₜ_sound s t)

-- strings.HasPrefix
abbrev pub has_prefix : Text → Text → Bool
has_prefix s [] = true
has_prefix [] (p ∷ ps) = false
has_prefix (c ∷ s) (p ∷ ps) = c == p && has_prefix s ps

-- strings.CutPrefix
abbrev pub cut_prefix : Text → Text → Option Text
cut_prefix s [] = some s
cut_prefix [] (p ∷ ps) = none
cut_prefix (c ∷ s) (p ∷ ps) = let rest = cut_prefix s ps in if c == p then rest else none

-- The longest prefix that passes the test, and the rest.
abbrev pub span : (ℕ → Bool) → Text → Text × Text
span p [] = ([], [])
span p (c ∷ s) = if p c then (c ∷ (span p s).0, (span p s).1) else ([], c ∷ s)

-- strings.TrimLeft with the cutset given by a test
abbrev pub trim_left : (ℕ → Bool) → Text → Text
trim_left p [] = []
trim_left p (c ∷ s) = if p c then trim_left p s else c ∷ s

-- A text that does not begin with a character of the kind.
abbrev pub starts_not : (ℕ → Bool) → Text → Bool
starts_not p [] = true
starts_not p (c ∷ s) = not (p c)

abbrev pub unless_trimmed : Bool → ℕ → Text → Text
unless_trimmed q c [] = if q then [] else c ∷ []
unless_trimmed q c (d ∷ t) = c ∷ d ∷ t

-- strings.TrimRight with the cutset given by a test
abbrev pub trim_right : (ℕ → Bool) → Text → Text
trim_right p [] = []
trim_right p (c ∷ s) = unless_trimmed (p c) c (trim_right p s)

-- a < b of strings, byte by byte
abbrev pub ltₜ : Text → Text → Bool
ltₜ s [] = false
ltₜ [] (d ∷ t) = true
ltₜ (c ∷ s) (d ∷ t) = let rest = ltₜ s t in if c == d then rest else ltb c d

-- strings.HasSuffix
abbrev pub has_suffix : Text → Text → Bool
has_suffix [] t = [] =ₜ t
has_suffix (c ∷ s) t = (c ∷ s) =ₜ t || has_suffix s t

-- strings.Contains
abbrev pub contains : Text → Text → Bool
contains [] t = has_prefix [] t
contains (c ∷ s) t = has_prefix (c ∷ s) t || contains s t
