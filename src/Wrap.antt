-- ===== src/Wrap.antt =====
-- wrap.go: the wrapper around a connection.
pub mod World
pub mod Conn
pub mod Report
pub mod Close
pub mod Detached
pub mod System
pub mod Invariant
pub mod Safety
pub mod Progress
pub mod Sections
pub mod Termination
pub mod Spec
pub mod Refinement
pub mod Entries
pub mod Opening
pub mod Stamps
pub mod OnLinux
pub mod Examples
