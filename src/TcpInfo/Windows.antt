-- ===== src/TcpInfo/Windows.antt =====
-- pkg/tcpinfo/tcpinfo_windows.go.
pub mod Constants
mod Raw
mod SysInfo
pub mod Unpack
pub mod ToMap
pub mod Report
pub mod Fallback
pub mod Entries
pub mod Instance
mod Examples
