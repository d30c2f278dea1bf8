-- ===== src/Metadata.antt =====
-- The metadata store: common/metadata_store.h and common/metadata_store.cpp.
pub mod Records
pub mod Sql
pub mod Statement
pub mod Store
pub mod Recovery
pub mod Sorted
pub mod Recovered
pub mod RoundTrip
pub mod Owned
pub mod Changes
