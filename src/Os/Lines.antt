-- ===== src/Os/Lines.antt =====
-- Lines of a file, and strings.Trim.
use conniver.Prelude.{
  ℕ, ◌≡◌, refl, ap, Bool, true, false, ◌||◌, List, [], ◌∷◌, ◌++◌, ◌==◌, if◌then◌else◌, inl, inr,
  none, some, Bool-cases, arith,
}
use conniver.Prelude.Text.{
  unless_trimmed, trim_right, Text, ◌=ₜ◌, has_prefix, cut_prefix, trim_left, starts_not,
}

abbrev push : ℕ → List Text → List Text
push c [] = (c ∷ []) ∷ []
push c (l ∷ ls) = (c ∷ l) ∷ ls

-- The lines before the carriage returns are dropped; a last line without its newline counts, an
-- empty one does not.
abbrev newline_tokens : Text → List Text
newline_tokens [] = []
newline_tokens (c ∷ s) = let rest = newline_tokens s in if c == 10 then [] ∷ rest else push c rest

abbrev drop_cr : Text → Text
drop_cr [] = []
drop_cr (c ∷ []) = if c == 13 then [] else c ∷ []
drop_cr (c ∷ d ∷ s) = c ∷ drop_cr (d ∷ s)

abbrev drop_crs : List Text → List Text
drop_crs [] = []
drop_crs (l ∷ ls) = drop_cr l ∷ drop_crs ls

-- The tokens of bufio.Scanner, for lines that fit its buffer of 64 KiB.
unfoldable pub scan_lines : Text → List Text
scan_lines s = drop_crs (newline_tokens s)

-- bytes.SplitSeq(b, "\n"), where an end without a newline is a piece, the empty one too.
unfoldable pub split_newlines : Text → List Text
split_newlines [] = [] ∷ []
split_newlines (c ∷ s) = let rest = split_newlines s in if c == 10 then [] ∷ rest else push c rest

-- bytes.HasSuffix
abbrev pub has_suffix : Text → Text → Bool
has_suffix [] t = [] =ₜ t
has_suffix (c ∷ s) t = ((c ∷ s) =ₜ t) || has_suffix s t

-- strings.Trim
unfoldable pub trim : (ℕ → Bool) → Text → Text
trim p s = trim_left p (trim_right p s)

trim_left-starts : (p : ℕ → Bool) (s : Text) → starts_not p (trim_left p s) ≡ true
trim_left-starts p [] = refl
trim_left-starts p (c ∷ s) = ground (arith, trim_left-starts p s)

trim_left-fixed : (p : ℕ → Bool) (s : Text) → starts_not p s ≡ true → trim_left p s ≡ s
trim_left-fixed p [] h = refl
trim_left-fixed p (c ∷ s) h = ground arith

unless_trimmed-fixed :
    (p : ℕ → Bool) (c : ℕ) (t : Text)
    → trim_right p t ≡ t
    → trim_right p (unless_trimmed (p c) c t) ≡ unless_trimmed (p c) c t
unless_trimmed-fixed p c [] h = elim (Bool-cases (p c)) [
  | inl e ↦ rw e refl
  | inr e ↦ rw (e, e) refl
]
unless_trimmed-fixed p c (d ∷ t) h = ap (unless_trimmed (p c) c) h

trim_right-fixed : (p : ℕ → Bool) (s : Text) → trim_right p (trim_right p s) ≡ trim_right p s
trim_right-fixed p [] = refl
trim_right-fixed p (c ∷ s) = unless_trimmed-fixed p c (trim_right p s) (trim_right-fixed p s)

abbrev rest_of : Text → Text
rest_of [] = []
rest_of (c ∷ s) = s

unless_trimmed-rest : (q : Bool) (c : ℕ) (t s : Text) → unless_trimmed q c t ≡ c ∷ s → t ≡ s
unless_trimmed-rest true c [] s h = cc
unless_trimmed-rest false c [] s h = ap rest_of h
unless_trimmed-rest q c (d ∷ t) s h = ap rest_of h

trim_left-keeps :
    (p : ℕ → Bool) (s : Text) → trim_right p s ≡ s → trim_right p (trim_left p s) ≡ trim_left p s
trim_left-keeps p [] h = refl
trim_left-keeps p (c ∷ s) h = elim (Bool-cases (p c)) [
  | inl e ↦ rw e (trim_left-keeps p s (unless_trimmed-rest (p c) c (trim_right p s) s h))
  | inr e ↦ rw e h
]

-- What has been trimmed has nothing left to trim.
pub trim-trim : (p : ℕ → Bool) (s : Text) → trim p (trim p s) ≡ trim p s
unfolding trim
trim-trim p s =
    rw (trim_left-keeps p (trim_right p s) (trim_right-fixed p s))
      (trim_left-fixed p (trim_left p (trim_right p s)) (trim_left-starts p (trim_right p s)))

pub cut_prefix-append : (k s : Text) → cut_prefix (k ++ s) k ≡ some s
cut_prefix-append [] [] = refl
cut_prefix-append [] (c ∷ s) = refl
cut_prefix-append (c ∷ k) s = ground (arith, cut_prefix-append k s)

pub cut_prefix-none : (s k : Text) → has_prefix s k ≡ false → cut_prefix s k ≡ none
cut_prefix-none s [] h = cc
cut_prefix-none [] (c ∷ k) h = refl
cut_prefix-none (d ∷ s) (c ∷ k) h = ground (arith, cut_prefix-none s k)
