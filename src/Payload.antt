-- ===== src/Payload.antt =====
-- Records in the layout of a schema: writing and reading payloads, src/catalog/Schema.cpp.
pub mod Write
pub mod Read
mod Flags
pub mod Nulls
pub mod Lengths
pub mod Steady
pub mod Results
pub mod Wraps
mod Places
mod Fixed
mod Stores
mod RoundTrip
mod Tests
