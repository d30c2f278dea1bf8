-- ===== src/Service.antt =====
-- The service's answers to the driver: service/PathOverlaySvc/main.cpp.
pub mod NtPath
pub mod Hidden
pub mod Request
pub mod Deleted
pub mod Answered
pub mod Push
pub mod Thread
pub mod Checked
pub mod Served
pub mod Resources
pub mod Processes
pub mod Occupancy
