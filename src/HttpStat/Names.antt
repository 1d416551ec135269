-- ===== src/HttpStat/Names.antt =====
-- The server says what a file is called, not where it lands.
use conniver.Prelude.{
  ℕ, ◌≡◌, refl, Bool, true, false, not, ◌&&◌, ◌||◌, [], ◌∷◌, ◌++◌, ◌==◌, all, all-append, inl, inr,
  Bool-cases, arith,
}
use conniver.Prelude.Text.{Text, codes, ◌=ₜ◌, trim_right}
use conniver.HttpStat.Output.{
  last_element, or_slash, base, Parsed, get_filename_from_headers, written, remote_filename,
  read_response_body,
}

-- No slash in it.
abbrev pub is_flat : Text → Bool
is_flat = all (λ c. not (c == b'/'))

last_element-flat : (acc s : Text) → is_flat acc ≡ true → is_flat (last_element acc s) ≡ true
last_element-flat acc [] h = h
last_element-flat acc (c ∷ s) h = elim (Bool-cases (c == b'/')) [
  | inl e ↦ rw e (last_element-flat [] s refl)
  | inr e ↦ rw e (last_element-flat (acc ++ c ∷ []) s (all-append _ acc (c ∷ []) h (rw e refl)))
]

-- A base is a slash, or not empty and without slashes.
abbrev is_base : Text → Bool
is_base s = s =ₜ codes "/" || (not (s =ₜ []) && is_flat s)

or_slash-base : (s : Text) → is_flat s ≡ true → is_base (or_slash s) ≡ true
or_slash-base [] h = refl
or_slash-base (c ∷ s) h = ground arith

base_lem : (s : Text) → is_base (base s) ≡ true
unfolding base
base_lem [] = refl
base_lem (c ∷ s) =
    or_slash-base (last_element [] (trim_right (λ d. d == b'/') (c ∷ s)))
      (last_element-flat [] (trim_right (λ d. d == b'/') (c ∷ s)) refl)

remote_filename-base :
    (hdr : Text) (parsed : Parsed) (uri : Text) → is_base (remote_filename hdr parsed uri) ≡ true
unfolding remote_filename
remote_filename-base hdr parsed uri =
    elim (Bool-cases (base (get_filename_from_headers hdr parsed) =ₜ codes ".")) [
      | inl e ↦ rw e (base_lem uri)
      | inr e ↦ rw e (base_lem (get_filename_from_headers hdr parsed))
    ]

-- With -O, whatever the server sends in Content-Disposition, a body is only written to a name that is
-- one component of a path: it is not empty, it has no slash, and it is neither `.` nor `..`.
pub read_response_body-flat :
    (status : ℕ) (head : Bool) (output_file hdr : Text) (parsed : Parsed) (uri name : Text)
    → read_response_body status head true output_file hdr parsed uri ≡ written name
    → (is_flat name ≡ true)
      × ((name =ₜ []) ≡ false)
      × ((name =ₜ codes ".") ≡ false)
      × ((name =ₜ codes "..") ≡ false)
unfolding read_response_body
read_response_body-flat status head output_file hdr parsed uri name h =
    ground (arith, remote_filename-base hdr parsed uri)
