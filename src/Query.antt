-- ===== src/Query.antt =====
-- The numbers of operators and of index types, src/query/expr and src/index.
pub mod OpTypes
pub mod IdxTypes
mod Tests
