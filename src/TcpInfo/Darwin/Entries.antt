-- ===== src/TcpInfo/Darwin/Entries.antt =====
-- What SysInfo.ToMap binds each key to.
use conniver.Prelude.{◌≡◌, refl, true, some, arith}
use conniver.Prelude.Fields.{Entry, end, lookup, distinct, lookup-put_all}
use mathlib.Core.List.{Memᴰ}
use conniver.TcpInfo.Darwin.SysInfo.{SysInfo}
use conniver.TcpInfo.Darwin.ToMap.{entries, to_map}

entries-distinct_darwin : (s : SysInfo) → distinct (entries s) ≡ true
entries-distinct_darwin s = refl

-- Every entry of the map literal is found under its key, since no key stands twice.
pub to_map-lookup_darwin :
    (s : SysInfo) (e : Entry)
    → Memᴰ e (entries s)
    → e.valid ≡ true
    → lookup e.key (to_map s) ≡ some e.value
unfolding to_map lookup
to_map-lookup_darwin s e m v =
    ground (arith, lookup-put_all e (entries s) end (entries-distinct_darwin s) m)
