-- ===== src/Catalog.antt =====
-- The catalog cache: src/catalog/CatCacheBase_private.inc and include/catalog/CatCacheBase.h.
pub mod Oids
pub mod Interface
pub mod State
pub mod Search
pub mod Descriptor
pub mod Find
pub mod Insert
pub mod Load
mod Allocate
mod Returns
pub mod Volatile
mod Matches
mod Lookups
mod Loaded
mod Blocks
mod LoadedFiles
mod LoadTests
mod TableRows
mod Rows
pub mod Tests
mod TableTests
