-- ===== src/TcpInfo/Linux.antt =====
-- pkg/tcpinfo/tcpinfo_linux.go and init_linux.go.
pub mod Constants
mod Raw
mod SysInfo
pub mod Versions
pub mod Unpack
pub mod ToMap
pub mod Report
pub mod Socket
pub mod Layout
pub mod Adapt
pub mod Steps
pub mod Coverage
pub mod Gaps
pub mod Options
pub mod Entries
pub mod Tags
pub mod Calls
pub mod Instance
mod Examples
