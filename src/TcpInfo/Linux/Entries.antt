-- ===== src/TcpInfo/Linux/Entries.antt =====
-- What SysInfo.ToMap binds each key to.
use conniver.Prelude.{◌≡◌, refl, true, none, List, ◌++◌}
use conniver.Prelude.Fields.{Entry, end, lookup, distinct, stored, lookup-put_all}
use mathlib.Core.List.{Memᴰ}
use conniver.TcpInfo.Linux.SysInfo.{SysInfo}
use conniver.TcpInfo.Linux.ToMap.{plain_entries, nullable_entries, to_map}

-- The entries of the map literal, and the conditional ones behind them.
abbrev pub all_entries : SysInfo → List Entry
all_entries s = plain_entries s ++ nullable_entries s

pub all_entries-distinct : (s : SysInfo) → distinct (all_entries s) ≡ true
all_entries-distinct s = refl

-- An entry of the map is found under its key exactly where it is stored, since no key stands twice.
pub to_map-lookup :
    (s : SysInfo) (e : Entry) → Memᴰ e (all_entries s) → lookup e.key (to_map s) ≡ stored e none
unfolding to_map lookup
to_map-lookup s e m = lookup-put_all e (all_entries s) end (all_entries-distinct s) m
