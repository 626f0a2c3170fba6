-- ===== src/Storage.antt =====
-- What src/storage and include/storage define.
pub mod RecordId
mod Tests
