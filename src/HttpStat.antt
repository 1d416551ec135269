-- ===== src/HttpStat.antt =====
-- cmd/httpstat/main.go: from the flags to the exit status, without colors and JSON.
pub mod Start
pub mod Url
pub mod Headers
pub mod Certificates
pub mod Timing
pub mod Sums
pub mod Columns
pub mod Connection
pub mod Final
pub mod Printing
pub mod Sorted
pub mod Insertion
pub mod Visit
pub mod Pages
pub mod Run
pub mod Request
pub mod Pairs
pub mod Output
pub mod Redirects
pub mod Order
pub mod Names
mod Examples
