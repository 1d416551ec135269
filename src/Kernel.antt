-- ===== src/Kernel.antt =====
-- pkg/kernel: kernel versions, their order, printing and parsing, and how the running one is found.
mod Scan
mod Version
mod Release
pub mod Order
pub mod RoundTrip
pub mod Check
pub mod Windows
mod Examples
unfoldable pub use Scan.{scan_int, scan_string, scan_dot, sscanf_release, sscanf_partial}
pub use Version.{VersionInfo}
unfoldable pub use Version.{string, compare_kernel_version}
unfoldable pub use Release.{parse_release}
