-- ===== src/Volatile.antt =====
-- VolatileCatCache: src/catalog/VolatileCatCache.cpp and include/catalog/VolatileCatCache.h.
pub mod Files
mod InPlace
pub mod ReadBack
pub mod Scan
pub mod Appends
mod Tests
