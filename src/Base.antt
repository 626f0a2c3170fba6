-- ===== src/Base.antt =====
-- The definitions of include/base/tdb_base.h that the other parts share.
pub mod Align
