-- ===== src/HttpStat/Examples.antt =====
-- A server that names its file badly, and the theorems about httpstat applied.
mod Visits
use conniver.Prelude.{ℕ, ◌+◌, ◌≤◌, ◌≡◌, refl, true, false, not, ◌&&◌, some, [], length, arith}
use conniver.Prelude.Text.{Text, codes, ◌=ₜ◌}
use conniver.HttpStat.Headers.{less}
use conniver.HttpStat.Order.{less_lem}
use conniver.HttpStat.Output.{
  Parsed, base, get_filename_from_headers, remote_filename, is_redirect, written,
  read_response_body,
}
use conniver.HttpStat.Names.{is_flat, read_response_body-flat}
use conniver.HttpStat.Redirects.{
  Location, location, max_redirects, visit, is_out_of_fuel, visit-ends,
}

abbrev header : Text
header = codes "attachment; filename=../../etc/passwd"

abbrev parsed : Parsed
parsed = some (codes "attachment", codes "../../etc/passwd")

landed : read_response_body 200 false true [] header parsed (codes "/") ≡ written (codes "passwd")
unfolding read_response_body is_redirect remote_filename get_filename_from_headers base
landed = refl

read_response_body-flat_example :
    (is_flat (codes "passwd") ≡ true)
    × ((codes "passwd" =ₜ []) ≡ false)
    × ((codes "passwd" =ₜ codes ".") ≡ false)
    × ((codes "passwd" =ₜ codes "..") ≡ false)
read_response_body-flat_example =
    read_response_body-flat 200 false [] header parsed (codes "/") (codes "passwd") landed
