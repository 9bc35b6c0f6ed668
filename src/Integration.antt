-- ===== src/Integration.antt =====
-- The Home Assistant integration (custom_components/cinema_collections).
pub mod Const
pub mod Resolver
pub mod Rounds
pub mod History
pub mod Tokens
pub mod Scheduler
pub mod Upcoming
pub mod Schedules
pub mod Coordinator
pub mod Availability
pub mod WorkerClip
pub mod Selection
