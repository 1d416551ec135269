-- ===== src/TcpInfo.antt =====
-- pkg/tcpinfo/tcpinfo.go: the information common to all platforms. The type of the platform's own
-- information is a parameter; each platform is a child.
mod Common
mod Nullables
mod Named
pub mod Platform
pub mod Linux
pub mod Darwin
pub mod Windows
pub mod Other
pub use Common.{TcpOption, Slice, Info}
pub use Nullables.{Nullable}
unfoldable pub use Common.{clone_options, clone_info, option_string, info_to_map}
unfoldable pub use Nullables.{gated}
