-- ===== src/Os/Linux.antt =====
-- pkg/os/operatingsystem_linux.go. What opening and reading the files answers, a content or an error,
-- is an argument; `is_not_exist` is os.IsNotExist.
use conniver.Prelude.{
  ℕ, Bool, true, false, not, ◌&&◌, ◌||◌, Option, none, some, Result, ok, err, List, [], ◌∷◌, ◌++◌,
  ◌==◌, if◌then◌else◌,
}
use conniver.Prelude.Text.{Text, codes, ◌=ₜ◌, cut_prefix}
use conniver.Os.Lines.{scan_lines, split_newlines, has_suffix, trim}

-- The cutset `"' `.
abbrev pub is_quote : ℕ → Bool
is_quote c = c == b'"' || c == 39 || c == b' '

-- The value after a line, given what follows the key on it and the value before it.
abbrev pub assigned : Option Text → Text → Text
assigned none value = value
assigned (some after) value = trim is_quote after

-- The loop over the lines.
unfoldable pub value_of : Text → List Text → Text → Text
value_of key [] value = value
value_of key (line ∷ lines) value =
    value_of key lines (assigned (cut_prefix line (key ++ codes "=")) value)

module _ {ℓ} {E : Type ℓ} (is_not_exist : E → Bool) where
  -- The file that is read: /etc/os-release, or /usr/lib/os-release where that does not exist.
  unfoldable pub os_release_file : Result E Text → Result E Text → Result E Text
  os_release_file (ok content) alt = ok content
  os_release_file (err e) alt = if is_not_exist e then alt else err e

  unfoldable pub get_value_from_os_release : Text → Result E Text → Result E Text → Result E Text
  get_value_from_os_release key etc alt = elim (os_release_file etc alt) [
    | err e ↦ err e
    | ok content ↦ ok (value_of key (scan_lines content) [])
  ]

  abbrev or_linux : Text → Text
  or_linux pretty_name = if pretty_name =ₜ [] then codes "Linux" else pretty_name

  unfoldable pub get_operating_system : Result E Text → Result E Text → Result E Text
  get_operating_system etc alt = elim (get_value_from_os_release (codes "PRETTY_NAME") etc alt) [
    | err e ↦ err e
    | ok pretty_name ↦ ok (or_linux pretty_name)
  ]

  unfoldable pub get_operating_system_version : Result E Text → Result E Text → Result E Text
  get_operating_system_version etc alt = get_value_from_os_release (codes "VERSION_ID") etc alt

-- The test of a line of /proc/1/cgroup.
unfoldable pub in_container : Text → Bool
in_container line =
    not (line =ₜ [])
    && (not (has_suffix line (codes ":/")) && not (has_suffix line (codes ":/init.scope")))

-- The loop over the lines.
unfoldable pub any_in_container : List Text → Bool
any_in_container [] = false
any_in_container (line ∷ lines) =
    let rest = any_in_container lines in if in_container line then true else rest

-- The error goes with the answer false.
unfoldable pub is_containerized {ℓ} : {E : Type ℓ} → Result E Text → Bool × Option E
is_containerized (err e) = (false, some e)
is_containerized (ok b) = (any_in_container (split_newlines b), none)
