-- ===== src/Os.antt =====
-- pkg/os: the name of the operating system, and whether the process runs in a container.
mod Lines
pub mod Linux
pub mod Unix
pub mod Windows
pub mod Release
pub mod Containers
mod Examples
