-- ===== src/Worker.antt =====
-- The Worker application (app/src/cinema_collections_worker).
pub mod Database
pub mod Queue
pub mod Domain
pub mod Records
pub mod Collections
pub mod Jobs
pub mod Ends
pub mod Library
pub mod Requests
pub mod Sources
pub mod Scans
pub mod Durations
pub mod Samples
