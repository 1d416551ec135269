-- ===== src/TcpInfo/Darwin.antt =====
-- pkg/tcpinfo/tcpinfo_darwin.go.
pub mod Constants
mod Raw
mod SysInfo
pub mod Unpack
pub mod ToMap
pub mod Report
pub mod Options
pub mod Entries
pub mod Instance
mod Examples
