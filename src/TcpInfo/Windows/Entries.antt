-- ===== src/TcpInfo/Windows/Entries.antt =====
-- What SysInfo.ToMap binds each key to.
use conniver.Prelude.{◌≡◌, refl, true, some, arith}
use conniver.Prelude.Fields.{Entry, end, lookup, distinct, lookup-put_all}
use mathlib.Core.List.{Memᴰ}
use conniver.TcpInfo.Windows.SysInfo.{SysInfo}
use conniver.TcpInfo.Windows.ToMap.{entries, to_map}

entries-distinct_windows : (s : SysInfo) → distinct (entries s) ≡ true
entries-distinct_windows s = refl

-- Every entry of the map literal is found under its key, since no key stands twice.
pub to_map-lookup_windows :
    (s : SysInfo) (e : Entry)
    → Memᴰ e (entries s)
    → e.valid ≡ true
    → lookup e.key (to_map s) ≡ some e.value
unfolding to_map lookup
to_map-lookup_windows s e m v =
    ground (arith, lookup-put_all e (entries s) end (entries-distinct_windows s) m)
