-- ===== src/Overlay.antt =====
-- The overlay operations: common/overlay_operations.cpp.
pub mod World
pub mod FsPath
pub mod RoundTrip
pub mod Files
pub mod Copy
pub mod Records
pub mod Prepare
pub mod Rename
pub mod Commit
pub mod Discard
pub mod Preflight
pub mod Cleared
pub mod Cleanup
pub mod Isolation
pub mod OtherRules
