-- ===== src/OsVersion.antt =====
-- pkg/osversion: versions of Windows and which containers a host can run.
pub mod Builds
pub mod Version
pub mod Compat
pub mod Cached
mod Examples
