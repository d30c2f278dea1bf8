-- ===== src/Driver.antt =====
-- The minifilter: driver/PathOverlayFlt/Driver.c.
pub mod Status
pub mod Kernel
pub mod Buffers
pub mod Components
pub mod Cache
pub mod Access
pub mod Send
pub mod Shadow
pub mod Create
pub mod SetInformation
pub mod Query
pub mod Port
pub mod Redirect
pub mod Triple
pub mod Tombstones
pub mod Deletion
pub mod Writes
