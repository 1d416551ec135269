-- ===== src/Os/Examples.antt =====
-- An os-release file, a cgroup file and a registry, and the theorems about them applied.
use conniver.Prelude.{◌≡◌, refl, false, Result, ok, err, List, [], ◌∷◌, ◌++◌}
use conniver.Prelude.Text.{Text, codes}
use conniver.Os.Lines.{scan_lines, trim}
use conniver.Os.Linux.{
  is_quote, value_of, os_release_file, get_value_from_os_release, get_operating_system,
}
use conniver.Os.Release.{value_of-last}

abbrev before : List Text
before = codes "NAME=Alpine" ∷ codes "PRETTY_NAME=old" ∷ []

abbrev after : List Text
after = codes "ID=alpine" ∷ []

value_of-last_example :
    value_of (codes "PRETTY_NAME") (before ++ codes "PRETTY_NAME='Alpine 3'" ∷ after) []
    ≡ trim is_quote (codes "'Alpine 3'")
value_of-last_example =
    value_of-last (codes "PRETTY_NAME") (codes "'Alpine 3'") before after [] refl

abbrev release : Result Text Text
release = ok (codes "ID=x\nPRETTY_NAME='Alpine 3' ")

named : get_operating_system (λ e. false) release (err []) ≡ ok (codes "Alpine 3")
unfolding get_operating_system get_value_from_os_release os_release_file value_of scan_lines trim
named = refl
