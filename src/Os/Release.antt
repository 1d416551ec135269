-- ===== src/Os/Release.antt =====
-- What is read from os-release.
use conniver.Prelude.{
  ◌≡◌, refl, ap, ◌∙◌, Bool, true, false, not, Option, none, some, Result, ok, List, [], ◌∷◌, ◌++◌,
  all, inl, inr, Result-cases, arith,
}
use conniver.Prelude.Text.{Text, codes, ◌=ₜ◌, has_prefix, cut_prefix}
use conniver.Os.Lines.{scan_lines, trim, trim-trim, cut_prefix-append, cut_prefix-none}
use conniver.Os.Linux.{
  is_quote, assigned, value_of, os_release_file, get_value_from_os_release, get_operating_system,
}

-- No line assigns the key.
abbrev pub is_silent : Text → List Text → Bool
is_silent key = all (λ line. not (has_prefix line (key ++ codes "=")))

value_of-silent :
    (key : Text) (lines : List Text) (v : Text)
    → is_silent key lines ≡ true
    → value_of key lines v ≡ v
unfolding value_of
value_of-silent key [] v h = refl
value_of-silent key (line ∷ lines) v h =
    ground (arith, cut_prefix-none line (key ++ codes "="), value_of-silent key lines v)

value_of-line :
    (key rest : Text) (lines : List Text) (v : Text)
    → value_of key (((key ++ codes "=") ++ rest) ∷ lines) v
      ≡ value_of key lines (trim is_quote rest)
unfolding value_of
value_of-line key rest lines v =
    ap (λ o. value_of key lines (assigned o v)) (cut_prefix-append (key ++ codes "=") rest)

-- The value is that of the last line of the key, without quotes and spaces around it, whatever stands
-- on the lines before and on lines of other keys after it.
pub value_of-last :
    (key rest : Text) (before after : List Text) (v : Text)
    → is_silent key after ≡ true
    → value_of key (before ++ ((key ++ codes "=") ++ rest) ∷ after) v ≡ trim is_quote rest
unfolding value_of
value_of-last key rest [] after v h =
    value_of-line key rest after v ∙ value_of-silent key after (trim is_quote rest) h
value_of-last key rest (line ∷ before) after v h = value_of-last key rest before after _ h

assigned-trimmed :
    (o : Option Text) (v : Text) → trim is_quote v ≡ v → trim is_quote (assigned o v) ≡ assigned o v
assigned-trimmed none v h = h
assigned-trimmed (some after) v h = trim-trim is_quote after

value_of-trimmed :
    (key : Text) (lines : List Text) (v : Text)
    → trim is_quote v ≡ v
    → trim is_quote (value_of key lines v) ≡ value_of key lines v
unfolding value_of
value_of-trimmed key [] v h = h
value_of-trimmed key (line ∷ lines) v h =
    value_of-trimmed key lines _ (assigned-trimmed (cut_prefix line (key ++ codes "=")) v h)

module _ {ℓ} {E : Type ℓ} (is_not_exist : E → Bool) where
  get_value-trimmed :
      (key : Text) (etc alt : Result E Text) (s : Text)
      → get_value_from_os_release is_not_exist key etc alt ≡ ok s
      → trim is_quote s ≡ s
  unfolding get_value_from_os_release trim
  get_value-trimmed key etc alt s h = elim (Result-cases (os_release_file is_not_exist etc alt)) [
    | inl (e, q) ↦ ground arith
    | inr (content, q) ↦ ground (arith, value_of-trimmed key (scan_lines content) [] refl)
  ]

  -- The name of the operating system is never empty, and has no quotes or spaces around it.
  pub get_operating_system-trimmed :
      (etc alt : Result E Text) (s : Text)
      → get_operating_system is_not_exist etc alt ≡ ok s
      → ((s =ₜ []) ≡ false) × (trim is_quote s ≡ s)
  unfolding get_operating_system trim
  get_operating_system-trimmed etc alt s h =
      elim (Result-cases (get_value_from_os_release is_not_exist (codes "PRETTY_NAME") etc alt)) [
        | inl (e, q) ↦ ground arith
        | inr (name, q) ↦ ground (arith, get_value-trimmed (codes "PRETTY_NAME") etc alt name q)
      ]
