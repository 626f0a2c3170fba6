-- ===== src/Schema.antt =====
-- The record layout: include/catalog/Schema.h and src/catalog/Schema.cpp.
pub mod Defs
pub mod Kinds
pub mod Layout
pub mod Visit
pub mod Compute
pub mod Trace
pub mod Order
pub mod Sections
pub mod Bits
pub mod Laid
pub mod NullIds
pub mod Established
pub mod Names
pub mod Samples
mod Tests
