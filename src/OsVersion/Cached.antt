-- ===== src/OsVersion/Cached.antt =====
-- What Get answers.
use conniver.Prelude.{◌+◌, ◌*◌, ◌<◌, ◌≡◌, refl, Option, none, some, arith}
use conniver.Prelude.Bits.{pack-words}
use conniver.OsVersion.Version.{VersionEx, OsVersion, from_system, get}

-- Later calls of Get answer what the first one did, whatever the system would answer by then.
pub get-cached : (once : Option OsVersion) (v v' : VersionEx) → get (get once v).0 v' ≡ get once v
unfolding get
get-cached none v v' = refl
get-cached (some osv) v v' = refl

-- For a version whose parts fit their fields, the parts are kept, and the packed version has the build
-- in its high half, then the minor and then the major version in a byte each.
pub from_system-packed :
    (v : VersionEx)
    → v.major_version < 256
    → v.minor_version < 256
    → v.build_number < 65536
    → ((from_system v).version ≡ v.build_number * 65536 + v.minor_version * 256 + v.major_version)
      × ((from_system v).major_version ≡ v.major_version)
      × ((from_system v).minor_version ≡ v.minor_version)
      × ((from_system v).build ≡ v.build_number)
unfolding from_system
from_system-packed v h k l =
    ground (arith, pack-words v.major_version v.minor_version v.build_number h k)
