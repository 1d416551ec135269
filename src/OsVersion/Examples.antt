-- ===== src/OsVersion/Examples.antt =====
-- Windows Server 2022 and 2025, and the theorems about versions applied to them.
use conniver.Prelude.{◌≡◌, ◌↔◌, true}
use conniver.OsVersion.Version.{VersionEx, from_system}
use conniver.OsVersion.Compat.{
  Runs, check_host_and_container_compat, check_host_and_container_compat_lem,
}

abbrev server_2022 : VersionEx
server_2022 = record { major_version = 10; minor_version = 0; build_number = 20348 }

abbrev server_2025 : VersionEx
server_2025 = record { major_version = 10; minor_version = 0; build_number = 26100 }

check_host_and_container_compat_lem_example :
    (check_host_and_container_compat (from_system server_2025) (from_system server_2022) ≡ true) ↔ (
      ((from_system server_2025).major_version ≡ (from_system server_2022).major_version)
      × ((from_system server_2025).minor_version ≡ (from_system server_2022).minor_version)
      × Runs (from_system server_2025).build (from_system server_2022).build)
check_host_and_container_compat_lem_example =
    check_host_and_container_compat_lem (from_system server_2025) (from_system server_2022)
