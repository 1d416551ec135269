-- ===== src/HttpStat/Printing.antt =====
-- cmd/httpstat/main.go: the printed status line and headers. Colors are left out.
use conniver.Prelude.{ℕ, List, [], ◌∷◌, ◌++◌, if◌then◌else◌}
use mathlib.Core.List.{map}
use conniver.Prelude.Text.{Text, codes, ◌=ₜ◌}
use conniver.Prelude.Decimal.{decimal}
use conniver.HttpStat.Headers.{less}
use conniver.HttpStat.Connection.{join_with}

-- A map of headers, in the order of one iteration.
abbrev pub Header : Type 0
Header = List (Text × List Text)

-- The loop that collects the names.
abbrev pub names : Header → List Text
names [] = []
names ((k, vs) ∷ h) = k ∷ names h

-- resp.Header[k]
abbrev pub values : Text → Header → List Text
values k [] = []
values k ((j, vs) ∷ h) = if k =ₜ j then vs else values k h

abbrev pub insert : Text → List Text → List Text
insert k [] = k ∷ []
insert k (j ∷ js) = if less k j then k ∷ j ∷ js else j ∷ insert k js

-- sort.Sort by Less
abbrev pub sort : List Text → List Text
sort [] = []
sort (k ∷ ks) = insert k (sort ks)

abbrev pub header_line : Header → Text → Text
header_line h k = k ++ (codes ": " ++ join_with (codes ",") (values k h))

unfoldable pub header_lines : Header → List Text
header_lines h = map (header_line h) (sort (names h))

unfoldable pub status_line : ℕ → ℕ → Text → Text
status_line major minor status =
    codes "HTTP/" ++ (decimal major ++ (codes "." ++ (decimal minor ++ (codes " " ++ status))))

-- headers.String and headers.Set, of the flag -H
unfoldable pub headers_string : List Text → Text
headers_string h = join_with (codes " ") (map (λ v. codes "-H " ++ v) h)

unfoldable pub headers_set : Text → List Text → List Text
headers_set v h = h ++ v ∷ []
